-- ===== src/Table.antt =====
-- The hash maps of other packages (`scc::HashMap`, `scc::HashIndex`, `hashbrown::HashMap`) and of
-- the standard library behind the operations that the sources call and their documented laws.
use ftl.Prelude.{Bool, Option, none, some, ◌≡◌, ◌≢◌, refl, if◌then◌else◌}
use mathlib.Core.Logic.{ite, if_pos, if_neg}

-- What `retain` leaves of one entry.
abbrev pub keep {ℓ} : {V : Type ℓ} → (V → Bool) → Option V → Option V
keep p none = none
keep p (some v) = if p v then some v else none

pub record Table (K V : Type 0) : Type 1 where
  pub Map : Type 0
  pub empty : Map
  pub get : K → Map → Option V
  pub insert : K → V → Map → Map
  pub remove : K → Map → Map
  pub retain : (V → Bool) → Map → Map
  pub get-empty : (k : K) → get k empty ≡ none
  pub get-insert_self : (k : K) (v : V) (m : Map) → get k (insert k v m) ≡ some v
  pub get-insert_ne : (k j : K) (v : V) (m : Map) → k ≢ j → get j (insert k v m) ≡ get j m
  pub get-remove_self : (k : K) (m : Map) → get k (remove k m) ≡ none
  pub get-remove_ne : (k j : K) (m : Map) → k ≢ j → get j (remove k m) ≡ get j m
  pub get-retain : (k : K) (p : V → Bool) (m : Map) → get k (retain p m) ≡ keep p (get k m)

module _ {K V : Type 0} (dec : Discrete K) where
  abbrev pub put : K → Option V → (K → Option V) → K → Option V
  put k v m j = ite (dec k j) v (m j)

  pub put_self : (k : K) (v : Option V) (m : K → Option V) → put k v m k ≡ v
  put_self k v m = if_pos (dec k k) refl v (m k)

  pub put_ne : (k j : K) (v : Option V) (m : K → Option V) → k ≢ j → put k v m j ≡ m j
  put_ne k j v m h = if_neg (dec k j) h v (m j)

  -- A map as a function: the laws of `Table` can be met.
  abbrev pub function_table : Table K V
  function_table = record {
    Map = K → Option V;
    empty = λ _. none;
    get = λ k m. m k;
    insert = λ k v m. put k (some v) m;
    remove = λ k m. put k none m;
    retain = λ p m k. keep p (m k);
    get-empty = λ k. refl;
    get-insert_self = λ k v m. put_self k (some v) m;
    get-insert_ne = λ k j v m h. put_ne k j (some v) m h;
    get-remove_self = λ k m. put_self k none m;
    get-remove_ne = λ k j m h. put_ne k j none m h;
    get-retain = λ k p m. refl;
  }
