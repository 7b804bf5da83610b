-- ===== src/Ledger/Event.antt =====
-- tools/ledger/src/types.ts: events, and the JSON values that they carry. Numbers in a value are
-- fractions that are not negative, `top / (rest + 1)`, in place of floats; `undefined` is `none`.
use bpb_action_mesh.Prelude.{
  ℕ, suc, ◌+◌, ◌-◌, ◌*◌, String, Bool, Option, none, some, ◌==◌, ltb, eqb, not, truthy,
  if◌then◌else◌, true, false,
}

pub record Ratio : Type 0 where
  pub top : ℕ
  pub rest : ℕ

abbrev pub whole : ℕ → Ratio
whole n = record { top = n; rest = 0 }

-- `n / 100`
abbrev pub percent : ℕ → Ratio
percent n = record { top = n; rest = 99 }

unfoldable pub ratio_lt : Ratio → Ratio → Bool
ratio_lt a b = ltb (a.top * suc b.rest) (b.top * suc a.rest)

-- `a === 0`
unfoldable pub is_zero : Ratio → Bool
is_zero a = eqb a.top 0

mutual
  pub data Json : Type 0 where
    null : Json
    bool : Bool → Json
    num : Ratio → Json
    str : String → Json
    arr : Items → Json
    obj : Fields → Json

  pub data Items : Type 0 where
    nil : Items
    cons : Json → Items → Items

  pub data Fields : Type 0 where
    end : Fields
    field : String → Json → Fields → Fields

-- `v[name]` of an object.
unfoldable pub member : String → Fields → Option Json
member name end = none
member name (field k v fs) = if k == name then some v else member name fs

-- `v[name]` where `v` is an object and the member a text or a number.
abbrev pub as_text : Option Json → Option String
as_text (some (str s)) = some s
as_text _ = none

abbrev pub as_number : Option Json → Option Ratio
as_number (some (num n)) = some n
as_number _ = none

pub data SwarmEventType : Type 0 where
  fact state observation correction : SwarmEventType

pub record SwarmEvent : Type 0 where
  pub id : String
  pub parent_id : Option String
  pub timestamp : ℕ
  pub logical_time : ℕ
  pub tool : String
  pub node_id : Option String
  pub run_id : String
  pub key : String
  pub value : Json
  pub confidence : Ratio
  pub event_type : SwarmEventType
  pub meta : Option Fields

-- `Omit<SwarmEvent, "id" | "logical_time">`: what a caller of the ledger gives.
pub record PartialEvent : Type 0 where
  pub parent_id : Option String
  pub timestamp : ℕ
  pub tool : String
  pub node_id : Option String
  pub run_id : String
  pub key : String
  pub value : Json
  pub confidence : Ratio
  pub event_type : SwarmEventType
  pub meta : Option Fields

-- `a + b`
unfoldable pub ratio_add : Ratio → Ratio → Ratio
ratio_add a b = record {
  top = a.top * suc b.rest + b.top * suc a.rest;
  rest = a.rest * suc b.rest + b.rest;
}

-- `a / b`, for `b` above zero.
unfoldable pub ratio_div : Ratio → Ratio → Ratio
ratio_div a b = record { top = a.top * suc b.rest; rest = suc a.rest * b.top - 1 }

-- A value in a condition.
unfoldable pub truthy_json : Json → Bool
truthy_json null = false
truthy_json (bool b) = b
truthy_json (num n) = not (is_zero n)
truthy_json (str s) = truthy s
truthy_json _ = true
