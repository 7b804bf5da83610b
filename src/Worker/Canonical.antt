-- ===== src/Worker/Canonical.antt =====
-- `canonicalJSONStringify` of worker/src/index.ts: objects with their members sorted by name. A member
-- that is `undefined` is none of a JSON value's.
use bpb_action_mesh.Prelude.{String, if◌then◌else◌, text_lt, ◌==◌}
use bpb_action_mesh.Ledger.Event.{
  Json, null, bool, num, str, arr, obj, Items, nil, cons, Fields, end, field,
}

-- A member in its place among sorted ones.
unfoldable pub insert_field : String → Json → Fields → Fields
insert_field k v end = field k v end
insert_field k v (field l w fs) =
    let rest = insert_field k v fs in
    if text_lt l k then field l w rest else field k v (field l w fs)

unfoldable mutual
  pub canonicalize : Json → Json
  canonicalize null = null
  canonicalize (bool b) = bool b
  canonicalize (num n) = num n
  canonicalize (str s) = str s
  canonicalize (arr vs) = arr (canonical_items vs)
  canonicalize (obj fs) = obj (canonical_fields fs)

  pub canonical_items : Items → Items
  canonical_items nil = nil
  canonical_items (cons v vs) = cons (canonicalize v) (canonical_items vs)

  pub canonical_fields : Fields → Fields
  canonical_fields end = end
  canonical_fields (field k v fs) = insert_field k (canonicalize v) (canonical_fields fs)

-- `{ [name]: _, ...rest } = fields`
unfoldable pub without : String → Fields → Fields
without name end = end
without name (field k v fs) =
    let rest = without name fs in if k == name then rest else field k v rest
