-- ===== src/External/Lo.antt =====
-- github.com/samber/lo: the functions that the code calls, without the index that lo also hands to
-- a callback, which no callback of the code reads.
use kube_overlay_operator.Base.{
  ℕ, suc, String, ◌≡◌, refl, sym, subst, Bool, true, false, not, Option, none, some, List, [], ◌∷◌,
  map, if◌then◌else◌,
}
use kube_overlay_operator.Base.Lists.{filter, find, any, contains}
use kube_overlay_operator.Base.Dict.{Dict, insert}

pub record Lo : Type 1 where
  pub filter : {A : Type 0} → List A → (A → Bool) → List A
  pub map : {A B : Type 0} → List A → (A → B) → List B
  pub find : {A : Type 0} → List A → (A → Bool) → Option A
  pub find_index_of : {A : Type 0} → List A → (A → Bool) → Option (A × ℕ)
  pub contains : List String → String → Bool
  pub contains_bool : List Bool → Bool → Bool
  pub contains_by : {A : Type 0} → List A → (A → Bool) → Bool
  pub uniq : List String → List String
  pub slice_to_map : {A V : Type 0} → List A → (A → String × V) → Dict V

abbrev pub bool_eq : Bool → Bool → Bool
bool_eq true b = b
bool_eq false b = not b

-- The first element that passes, with its index.
abbrev pub find_index_from : {A : Type 0} → ℕ → List A → (A → Bool) → Option (A × ℕ)
find_index_from i [] p = none
find_index_from i (x ∷ xs) p = if p x then some (x, i) else find_index_from (suc i) xs p

-- The elements that are not among those already seen, each at its first occurrence.
abbrev pub uniq_from : List String → List String → List String
uniq_from seen [] = []
uniq_from seen (x ∷ xs) = if contains seen x then uniq_from seen xs else x ∷ uniq_from (x ∷ seen) xs

-- Later pairs replace earlier ones of the same key.
abbrev pub insert_all : {A V : Type 0} → Dict V → List A → (A → String × V) → Dict V
insert_all m [] f = m
insert_all m (x ∷ xs) f = insert_all (insert (f x).0 (f x).1 m) xs f

-- The documented results.
abbrev pub documented_lo : Lo
documented_lo = record {
  filter = λ xs p. filter p xs;
  map = λ xs f. map f xs;
  find = λ xs p. find p xs;
  find_index_of = λ xs p. find_index_from 0 xs p;
  contains = contains;
  contains_bool = λ xs b. any (λ x. bool_eq x b) xs;
  contains_by = λ xs p. any p xs;
  uniq = λ xs. uniq_from [] xs;
  slice_to_map = λ xs f. insert_all [] xs f;
}

-- Each function returns what its documentation says.
pub record IsLo (lo : Lo) : Type 1 where
  pub filter_lem : {A : Type 0} (xs : List A) (p : A → Bool) → lo.filter xs p ≡ filter p xs
  pub map_lem : {A B : Type 0} (xs : List A) (f : A → B) → lo.map xs f ≡ map f xs
  pub find_lem : {A : Type 0} (xs : List A) (p : A → Bool) → lo.find xs p ≡ find p xs
  pub find_index_of_lem :
      {A : Type 0} (xs : List A) (p : A → Bool) → lo.find_index_of xs p ≡ find_index_from 0 xs p
  pub contains_lem : (xs : List String) (x : String) → lo.contains xs x ≡ contains xs x
  pub contains_bool_lem :
      (xs : List Bool) (b : Bool) → lo.contains_bool xs b ≡ any (λ x. bool_eq x b) xs
  pub contains_by_lem : {A : Type 0} (xs : List A) (p : A → Bool) → lo.contains_by xs p ≡ any p xs
  pub uniq_lem : (xs : List String) → lo.uniq xs ≡ uniq_from [] xs
  pub slice_to_map_lem :
      {A V : Type 0} (xs : List A) (f : A → String × V) → lo.slice_to_map xs f ≡ insert_all [] xs f

-- So a library that keeps to its documentation is the documented one.
pub IsLo-documented : {lo : Lo} → IsLo lo → documented_lo ≡ lo
IsLo-documented {lo} laws = sym λ i. record {
  filter = λ {A} xs p. laws.filter_lem xs p i;
  map = λ {A} {B} xs f. laws.map_lem xs f i;
  find = λ {A} xs p. laws.find_lem xs p i;
  find_index_of = λ {A} xs p. laws.find_index_of_lem xs p i;
  contains = λ xs x. laws.contains_lem xs x i;
  contains_bool = λ xs b. laws.contains_bool_lem xs b i;
  contains_by = λ {A} xs p. laws.contains_by_lem xs p i;
  uniq = λ xs. laws.uniq_lem xs i;
  slice_to_map = λ {A} {V} xs f. laws.slice_to_map_lem xs f i;
}

-- What is proved of the documented library holds of each that keeps to its documentation.
pub transport_lo {ℓ} : {lo : Lo} (laws : IsLo lo) (P : Lo → Type ℓ) → P documented_lo → P lo
transport_lo laws P h = subst P (IsLo-documented laws) h

abbrev pub documented_lo-IsLo : IsLo documented_lo
documented_lo-IsLo = record {
  filter_lem = λ xs p. refl;
  map_lem = λ xs f. refl;
  find_lem = λ xs p. refl;
  find_index_of_lem = λ xs p. refl;
  contains_lem = λ xs x. refl;
  contains_bool_lem = λ xs b. refl;
  contains_by_lem = λ xs p. refl;
  uniq_lem = λ xs. refl;
  slice_to_map_lem = λ xs f. refl;
}
