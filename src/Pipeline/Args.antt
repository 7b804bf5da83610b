-- ===== src/Pipeline/Args.antt =====
-- The command line of tools/ci/ci-pipeline.ts.
use Prim.Native.String
use bpb_action_mesh.Prelude.{
  String, ◌≡◌, refl, Bool, true, false, Option, none, some, List, [], ◌∷◌, ◌++◌, ◌∙◌, truthy,
}
use bpb_action_mesh.Pipeline.{PipelineArgs, setter, check_flag, parse_from, parse_args}

abbrev flag_with : String → Option String → List String
flag_with flag none = []
flag_with flag (some value) = flag ∷ value ∷ []

abbrev check_part : Bool → List String
check_part true = "--fingerprint-check" ∷ []
check_part false = []

-- The command line that gives these arguments.
abbrev pub command_line : PipelineArgs → List String
command_line a =
    "--ledger"
    ∷ a.ledger_path
    ∷ "--run-id"
    ∷ a.run_id
    ∷ (flag_with "--json-dir" a.json_dir
        ++ (flag_with "--report" a.report_path ++ check_part a.fingerprint_check))

abbrev IsFilled : Option String → Type 0
IsFilled none = Unit
IsFilled (some value) = truthy value ≡ true

-- No text that is given is empty.
pub record IsGiven (a : PipelineArgs) : Type 0 where
  pub ledger : truthy a.ledger_path ≡ true
  pub run : truthy a.run_id ≡ true
  pub dir : IsFilled a.json_dir
  pub report : IsFilled a.report_path

parse_from-value :
    (a : PipelineArgs) (flag value : String) (rest : List String)
    (assign : String → PipelineArgs → PipelineArgs)
    → setter flag ≡ some assign
    → truthy value ≡ true
    → parse_from a (flag ∷ value ∷ rest) ≡ parse_from (assign value a) rest
unfolding parse_from
parse_from-value a flag value rest assign h t = rw (h, parse_from) (rw t refl)

abbrev assigned :
    (String → PipelineArgs → PipelineArgs) → Option String → PipelineArgs → PipelineArgs
assigned assign none a = a
assigned assign (some value) a = assign value a

parse_from-flag_with :
    (a : PipelineArgs) (flag : String) (o : Option String) (rest : List String)
    (assign : String → PipelineArgs → PipelineArgs)
    → setter flag ≡ some assign
    → IsFilled o
    → parse_from a (flag_with flag o ++ rest) ≡ parse_from (assigned assign o a) rest
parse_from-flag_with a flag none rest assign h t = refl
parse_from-flag_with a flag (some value) rest assign h t =
    parse_from-value a flag value rest assign h t

abbrev checked : Bool → PipelineArgs → PipelineArgs
checked true a = record a { fingerprint_check = true }
checked false a = a

parse_from-check_part :
    (a : PipelineArgs) (check : Bool) → parse_from a (check_part check) ≡ checked check a
unfolding parse_from check_flag
parse_from-check_part a true = refl
parse_from-check_part a false = refl

same :
    (clock ledger run : String) (dir report : Option String) (check : Bool)
    → checked check (
        assigned
          (λ v a. record a { report_path = some v })
          report
          (assigned
            (λ v a. record a { json_dir = some v })
            dir
            (record {
              ledger_path = ledger;
              run_id = run;
              json_dir = none;
              report_path = none;
              fingerprint_check = false;
            })))
      ≡ record {
        ledger_path = ledger;
        run_id = run;
        json_dir = dir;
        report_path = report;
        fingerprint_check = check;
      }
same clock ledger run none none true = refl
same clock ledger run none none false = refl
same clock ledger run none (some r) true = refl
same clock ledger run none (some r) false = refl
same clock ledger run (some d) none true = refl
same clock ledger run (some d) none false = refl
same clock ledger run (some d) (some r) true = refl
same clock ledger run (some d) (some r) false = refl

-- `parseArgs` reads back the command line that gives a path and a run, where wanted a directory and a
-- report, and the check or not, where none of these texts is empty, whatever the clock is.
pub parse_args_given :
    (clock : String) (a : PipelineArgs) → IsGiven a → parse_args clock (command_line a) ≡ a
unfolding parse_args setter
parse_args_given clock a h =
    let start : PipelineArgs = record {
      ledger_path = "/tmp/swarm-ledger.jsonl";
      run_id = String.◌++◌ "ci-" clock;
      json_dir = none;
      report_path = none;
      fingerprint_check = false;
    } in
    let named : PipelineArgs = record start { ledger_path = a.ledger_path; run_id = a.run_id } in
    let placed : PipelineArgs = assigned (λ v a. record a { json_dir = some v }) a.json_dir named in
    let reported : PipelineArgs =
      assigned (λ v a. record a { report_path = some v }) a.report_path placed in
    let two =
      parse_from-value start "--ledger" a.ledger_path _ (λ v a. record a { ledger_path = v }) refl
        h.ledger
      ∙ parse_from-value (record start { ledger_path = a.ledger_path }) "--run-id" a.run_id _
          (λ v a. record a { run_id = v }) refl h.run in
    let three =
      parse_from-flag_with named "--json-dir" a.json_dir _ (λ v a. record a { json_dir = some v })
        refl h.dir in
    let four =
      parse_from-flag_with placed "--report" a.report_path _
        (λ v a. record a { report_path = some v }) refl h.report in
    let five = parse_from-check_part reported a.fingerprint_check in
    two
    ∙ three
    ∙ four
    ∙ five
    ∙ same clock a.ledger_path a.run_id a.json_dir a.report_path a.fingerprint_check
