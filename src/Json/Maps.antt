-- ===== src/Json/Maps.antt =====
-- Objects whose keys are distinct, as `serde_json::Map` keeps them, and what a removal leaves.
use thoughtgate.Base.{
  String, none, some, ◌≡◌, refl, inl, inr, ◌∙◌, subst, arith, if◌then◌else◌, str_eq, str_eq_refl,
  str_eq→eq, Bool-cases,
}
use thoughtgate.Base.Dict.{str_eq_sym}
use mathlib.Core.Option.{some-injective}
use thoughtgate.Json.{
  Value, Items, Fields, null, bool, number, string, array, object, nil, cons, end, field,
}
use thoughtgate.Json.Objects.{
  get_field, set_field, last_field, but_last, swap_out, remove_field, get_field-set_other,
  modify_field, get_field-modify_field,
}

unfoldable mutual
  pub IsJson : Value → Type 0
  IsJson (array l) = AreJson l
  IsJson (object l) = IsMap l
  IsJson null = Unit
  IsJson (bool _) = Unit
  IsJson (number _) = Unit
  IsJson (string _) = Unit

  pub AreJson : Items → Type 0
  AreJson nil = Unit
  AreJson (cons v l) = IsJson v × AreJson l

  -- No key stands twice, in the object and in what it holds.
  pub IsMap : Fields → Type 0
  IsMap end = Unit
  IsMap (field k v l) = (get_field k l ≡ none) × IsJson v × IsMap l

pub get_field-IsJson :
    (k : String) (v : Value) (l : Fields) → IsMap l → get_field k l ≡ some v → IsJson v
unfolding IsMap get_field
get_field-IsJson k v end m h = cc
get_field-IsJson k v (field j w l) m h = elim (Bool-cases (str_eq j k)) [
  | inl hit ↦ subst IsJson (some-injective w v (rw (← h) (rw hit))) m.1
  | inr miss ↦ get_field-IsJson k v l m.2 (rw miss at h)
]

-- The object with its last field put first has the same fields.
last_first :
    (j k : String) (v : Value) (l : Fields)
    → IsMap (field k v l)
    → get_field j (field (last_field k v l).0 (last_field k v l).1 (but_last k v l))
      ≡ get_field j (field k v l)
unfolding IsMap get_field last_field but_last
last_first j k v end m = refl
last_first j k v (field i w l) m = ground (
  arith,
  last_first j i w l m.2,
  last_first k i w l m.2,
  m.0,
  str_eq→eq k j,
  str_eq→eq (last_field i w l).0 j,
  str_eq→eq (last_field i w l).0 k,
  str_eq_refl j,
  str_eq_refl k,
)

get_field-swap_out : (j : String) (l : Fields) → IsMap l → get_field j (swap_out l) ≡ get_field j l
unfolding swap_out
get_field-swap_out j end m = refl
get_field-swap_out j (field k v l) m = last_first j k v l m

pub get_field-remove_field :
    (k j : String) (l : Fields)
    → IsMap l
    → get_field j (remove_field k l) ≡ (if str_eq k j then none else get_field j l)
unfolding IsMap remove_field get_field
get_field-remove_field k j end m = ground arith
get_field-remove_field k j (field i v l) m = ground (
  arith,
  get_field-remove_field k j l m.2,
  get_field-swap_out j l m.2,
  m.0,
  str_eq→eq i k,
  str_eq→eq i j,
  str_eq→eq k j,
  str_eq_refl j,
  str_eq_refl k,
)

pub set_field-IsMap :
    (k : String) (v : Value) (l : Fields) → IsJson v → IsMap l → IsMap (set_field k v l)
unfolding IsMap set_field get_field
set_field-IsMap k v end j m = (refl, j, tt)
set_field-IsMap k v (field i w l) j m = elim (Bool-cases (str_eq i k)) [
  | inl hit ↦ rw hit (m.0, j, m.2)
  | inr miss ↦
      rw miss
        (get_field-set_other k i v l (str_eq_sym i k miss) ∙ m.0, m.1, set_field-IsMap k v l j m.2)
]

modify_field-absent :
    (k j : String) (f : Value → Value) (l : Fields)
    → get_field j l ≡ none
    → get_field j (modify_field k f l) ≡ none
modify_field-absent k j f l h = rw (get_field-modify_field k j f l, h) (ground arith)

pub modify_field-IsMap :
    (k : String) (f : Value → Value) (l : Fields)
    → ((v : Value) → IsJson v → IsJson (f v))
    → IsMap l
    → IsMap (modify_field k f l)
unfolding IsMap modify_field
modify_field-IsMap k f end keeps m = tt
modify_field-IsMap k f (field i w l) keeps m = elim (Bool-cases (str_eq i k)) [
  | inl hit ↦ rw hit (m.0, keeps w m.1, m.2)
  | inr miss ↦ rw miss (modify_field-absent k i f l m.0, m.1, modify_field-IsMap k f l keeps m.2)
]
