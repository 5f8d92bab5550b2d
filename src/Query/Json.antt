-- ===== src/Query/Json.antt =====
-- JSON values and the accessors that src/query/query.cpp uses on them, by their documented behaviour.
-- `N` is the type of JSON numbers. The keys of an object are distinct.
use star_base.Common.{
  ℕ, suc, Bool, true, false, Option, none, some, if◌then◌else◌, is_some, Bytes, text_eq,
}

mutual
  pub data Json (N : Type 0) : Type 0 where
    null : Json N
    boolean : Bool → Json N
    number : N → Json N
    string : Bytes → Json N
    array : Items N → Json N
    object : Members N → Json N

  pub data Items (N : Type 0) : Type 0 where
    nil : Items N
    cons : Json N → Items N → Items N

  pub data Members (N : Type 0) : Type 0 where
    no_members : Members N
    member : Bytes → Json N → Members N → Members N

-- A `QueryError` with its message, or an exception of the JSON library.
pub data Failure : Type 0 where
  query_error : Bytes → Failure
  json_error : Failure

pub data Result {ℓ} (A : Type ℓ) : Type ℓ where
  err : Failure → Result A
  ok : A → Result A

-- What stands behind a call that may throw.
infixl 5 ◌>>=◌
abbrev pub ◌>>=◌ {ℓ κ} : {A : Type ℓ} {B : Type κ} → Result A → (A → Result B) → Result B
err thrown >>= rest = err thrown
ok value >>= rest = rest value

infixl 5 ◌>>◌
abbrev pub ◌>>◌ {κ} : {B : Type κ} → Result (Unit {0}) → Result B → Result B
check >> rest = check >>= (λ _. rest)

-- `if (!test) throw QueryError(message)`.
abbrev pub require : Bool → Bytes → Result (Unit {0})
require true m = ok tt
require false m = err (query_error m)

module _ {N : Type 0} where
  unfoldable pub get : Bytes → Members N → Option (Json N)
  unfolding text_eq
  get k no_members = none
  get k (member j v fs) = if text_eq j k then some v else get k fs

  -- `node.at(key)`.
  unfoldable pub at : Bytes → Json N → Result (Json N)
  unfolding get
  at k (object fs) = elim (get k fs) [ none ↦ err json_error | some v ↦ ok v ]
  at k j = err json_error

  -- `node.contains(key)`.
  unfoldable pub contains_key : Bytes → Json N → Bool
  unfolding get
  contains_key k (object fs) = is_some (get k fs)
  contains_key k j = false

  string_or : Bytes → Option (Json N) → Result Bytes
  string_or d none = ok d
  string_or d (some (string s)) = ok s
  string_or d (some j) = err json_error

  -- `node.value(key, default)` for a default that is a string.
  unfoldable pub value : Bytes → Bytes → Json N → Result Bytes
  unfolding get string_or
  value k d (object fs) = string_or d (get k fs)
  value k d j = err json_error

  -- `v.size()` of an array.
  unfoldable pub size : Items N → ℕ
  size nil = 0
  size (cons x xs) = suc (size xs)
