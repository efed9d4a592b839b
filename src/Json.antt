-- ===== src/Json.antt =====
-- The `dict[str, Any]` values that the state and the ledger hold: JSON values, what Python takes for
-- true of them, and a dict's `get` and `{**a, **b}`.
use socio_seo_agent.Prelude.{
  ℕ, zero, suc, String, ◌≡◌, refl, Bool, true, false, Option, none, some, arith, str_eq, eq_iff,
  if◌then◌else◌,
}

mutual
  pub data Json : Type 0 where
    null : Json
    bool : Bool → Json
    num : ℕ → Json
    text : String → Json
    arr : Items → Json
    obj : Fields → Json

  pub data Items : Type 0 where
    nil : Items
    cons : Json → Items → Items

  pub data Fields : Type 0 where
    end : Fields
    field : String → Json → Fields → Fields

-- bool(value)
unfoldable pub truthy : Json → Bool
truthy null = false
truthy (bool b) = b
truthy (num zero) = false
truthy (num (suc n)) = true
truthy (text s) = if str_eq s "" then false else true
truthy (arr nil) = false
truthy (arr (cons x xs)) = true
truthy (obj end) = false
truthy (obj (field k v fs)) = true

-- value is False
unfoldable pub is_false : Json → Bool
is_false (bool false) = true
is_false _ = false

-- d.get(key)
unfoldable pub get : String → Fields → Option Json
get k end = none
get k (field j v fs) = if str_eq j k then some v else get k fs

-- d[key] = value
unfoldable pub insert : String → Json → Fields → Fields
insert k v end = field k v end
insert k v (field j w fs) = if str_eq j k then field k v fs else field j w (insert k v fs)

-- {**a, **b}
unfoldable pub merge : Fields → Fields → Fields
unfolding insert
merge a end = a
merge a (field k v fs) = merge (insert k v a) fs

pub get-insert :
    (k j : String) (v : Json) (fs : Fields)
    → get j (insert k v fs) ≡ (if str_eq k j then some v else get j fs)
unfolding get insert
get-insert k j v end = refl
get-insert k j v (field i w fs) =
    ground (arith, eq_iff k j, eq_iff i k, eq_iff i j, get-insert k j v fs)

-- A key that the right side does not write keeps its value.
pub get-merge_absent : (k : String) (a b : Fields) → get k b ≡ none → get k (merge a b) ≡ get k a
unfolding get merge
get-merge_absent k a end h = refl
get-merge_absent k a (field j v fs) h =
    ground (arith, get-merge_absent k (insert j v a) fs, get-insert j k v a)
