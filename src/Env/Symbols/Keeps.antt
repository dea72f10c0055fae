-- ===== src/Env/Symbols/Keeps.antt =====
-- compiler/env.cpp, lines 203-299: code that imports symbols leaves the marks of what is being
-- loaded as it found them, and comes to an end.
use ceramic.Prelude.{
  ℕ, zero, suc, ◌+◌, ◌<◌, ◌≡◌, refl, ◌∙◌, Bool, true, false, ◌&&◌, Option, none, some, List, [],
  ◌∷◌, Bytes, contains, if◌then◌else◌, arith,
}
use ceramic.Env.Module.{
  ImportedMember, Import, import_module, import_star, import_members, Symbols, Store, update, M,
  Message, Result, ok, failed, out_of_fuel, ◌>>=◌, ◌>>◌, pure, raise, read, change,
}
use ceramic.Env.Symbols.{
  symbols_of, with_symbols, insert_imported, import_object, import_objects, import_table,
  import_member, import_members_of, import_name, import_visibility, is_private, import_one,
  import_all,
}

-- The run comes to an end, and `P` holds of its value and store if it does not fail.
pub data Ends {A : Type 0} (P : A → Store → Type 0) : Result (A × Store) → Type 0 where
  ended : {a : A} {st : Store} → P a st → Ends P (ok (a, st))
  raised : {e : Message} → Ends P (failed e)

-- The same modules are being loaded, and each has the same imports.
abbrev pub Same : Store → Store → Type 0
Same st st' =
    (k : ℕ)
    → ((st' k).public_symbols_loading ≡ (st k).public_symbols_loading)
      × ((st' k).all_symbols_loading ≡ (st k).all_symbols_loading)
      × ((st' k).imports ≡ (st k).imports)

pub Same-refl : (st : Store) → Same st st
Same-refl st k = (refl, refl, refl)

pub Same-trans : (st st' st'' : Store) → Same st st' → Same st' st'' → Same st st''
Same-trans st st' st'' h g k = ((g k).0 ∙ (h k).0, (g k).1 ∙ (h k).1, (g k).2 ∙ (h k).2)

pub Ends->>= :
    {A B : Type 0} {P : A → Store → Type 0} {Q : B → Store → Type 0} (m : M A) (f : A → M B)
    (st : Store)
    → Ends P (m st)
    → ((a : A) (st' : Store) → P a st' → Ends Q (f a st'))
    → Ends Q ((m >>= f) st)
unfolding ◌>>=◌
Ends->>= {A} {B} {P} {Q} m f st h k = go (m st) h
  where
    go :
        (r : Result (A × Store))
        → Ends P r
        → Ends Q
            (elim r [ ok (a, st') ↦ f a st' | failed e ↦ failed e | out_of_fuel ↦ out_of_fuel ])
    go (ok (a, st')) (ended p) = k a st' p
    go (failed e) raised = raised
    go out_of_fuel h = elim h [ ]

-- How many tables of the modules below `n` are not being loaded.
abbrev idle : ℕ → ℕ
idle zero = 1
idle (suc k) = 0

abbrev pub idle_tables : ℕ → Store → ℕ
idle_tables zero st = 0
idle_tables (suc n) st =
    idle (st n).public_symbols_loading + idle (st n).all_symbols_loading + idle_tables n st

-- The module that an import names has an address below `n`.
abbrev pub SourceBelow : ℕ → Import → Type 0
SourceBelow n (import_module _ _ _) = Unit
SourceBelow n (import_star _ source) = source < n
SourceBelow n (import_members _ source _) = source < n

abbrev pub SourcesBelow : ℕ → List Import → Type 0
SourcesBelow n [] = Unit
SourcesBelow n (i ∷ is) = SourceBelow n i × SourcesBelow n is

abbrev pub IsClosed : ℕ → Store → Type 0
IsClosed n st = (k : ℕ) → k < n → SourcesBelow n (st k).imports

pub idle_tables-Same : (n : ℕ) (st st' : Store) → Same st st' → idle_tables n st' ≡ idle_tables n st
idle_tables-Same zero st st' h = refl
idle_tables-Same (suc n) st st' h = rw ((h n).0, (h n).1, idle_tables-Same n st st' h)

pub IsClosed-Same : (n : ℕ) (st st' : Store) → Same st st' → IsClosed n st → IsClosed n st'
IsClosed-Same n st st' h c k l = rw ((h k).2) (c k l)

module _ (n bound : ℕ) where
  -- From a store whose imports lead to modules below `n`, and with fewer idle tables than `bound`,
  -- the code ends with the same modules being loaded.
  abbrev pub Keeps : {A : Type 0} → M A → Type 0
  Keeps m =
      (st : Store) → IsClosed n st → idle_tables n st < bound → Ends (λ _ st'. Same st st') (m st)

  pub Keeps->>= :
      {A B : Type 0} (m : M A) (f : A → M B) → Keeps m → ((a : A) → Keeps (f a)) → Keeps (m >>= f)
  Keeps->>= m f h k st c b = Ends->>= m f st (h st c b) λ a st' s.
      weaken st st' s (f a st')
        (k a st' (IsClosed-Same n st st' s c) (omega (arith, idle_tables-Same n st st' s)))
    where
      weaken :
          {B : Type 0} (s0 s1 : Store)
          → Same s0 s1
          → (r : Result (B × Store)) → Ends (λ _ st'. Same s1 st') r
          → Ends (λ _ st'. Same s0 st') r
      weaken s0 s1 s (ok (b, s2)) (ended p) = ended (Same-trans s0 s1 s2 s p)
      weaken s0 s1 s (failed e) raised = raised
      weaken s0 s1 s out_of_fuel h = elim h [ ]

  pub Keeps->> : {A B : Type 0} (m : M A) (k : M B) → Keeps m → Keeps k → Keeps (m >> k)
  unfolding ◌>>◌
  Keeps->> m k h g = Keeps->>= m (λ _. k) h (λ _. g)

  pub Keeps-pure : {A : Type 0} (a : A) → Keeps (pure a)
  unfolding pure
  Keeps-pure a st c b = ended (Same-refl st)

  pub Keeps-raise : {A : Type 0} (e : Message) → Keeps (raise {A = A} e)
  unfolding raise
  Keeps-raise e st c b = raised

  pub Keeps-read : {A : Type 0} (f : Store → A) → Keeps (read f)
  unfolding read
  Keeps-read f st c b = ended (Same-refl st)

  Keeps-if : {A : Type 0} (t : Bool) {m k : M A} → Keeps m → Keeps k → Keeps (if t then m else k)
  Keeps-if true h g = h
  Keeps-if false h g = g

  -- A change of a table alone.
  Keeps-change_symbols :
      (public_only : Bool) (m : ℕ) (result : Symbols)
      → Keeps (change m (with_symbols public_only result))
  unfolding change
  Keeps-change_symbols public_only m result st c b = ended (same public_only)
    where
      same : (p : Bool) → Same st (update st m (with_symbols p result (st m)))
      same true k = ground arith
      same false k = ground arith

  store_import : Bool → ℕ → Bytes → Option (Symbols × List Bytes) → M (List Bytes)
  store_import p m name o = elim o [
    | none ↦ raise (Message.name_imported_already name)
    | some (result, specific') ↦ change m (with_symbols p result) >> pure specific'
  ]

  Keeps-store_import :
      (p : Bool) (m : ℕ) (name : Bytes) (o : Option (Symbols × List Bytes))
      → Keeps (store_import p m name o)
  unfolding store_import
  Keeps-store_import p m name none = Keeps-raise _
  Keeps-store_import p m name (some (result, specific)) =
      Keeps->> _ _ (Keeps-change_symbols p m result) (Keeps-pure specific)

  Keeps-import_object :
      (p : Bool) (m : ℕ) (name : Bytes) (is_specific : Bool) (specific : List Bytes) (value : ℕ)
      → Keeps (import_object p m name is_specific specific value)
  unfolding import_object store_import
  Keeps-import_object p m name is_specific specific value = Keeps->>= _ _ (Keeps-read _) λ x.
      Keeps-store_import p m name
        (insert_imported name value x.globals (symbols_of p x) specific is_specific)

  Keeps-import_objects :
      (p : Bool) (m : ℕ) (name : Bytes) (is_specific : Bool) (specific : List Bytes) (os : List ℕ)
      → Keeps (import_objects p m name is_specific specific os)
  unfolding import_objects
  Keeps-import_objects p m name is_specific specific [] = Keeps-pure specific
  Keeps-import_objects p m name is_specific specific (o ∷ os) =
      Keeps->>= _ _ (Keeps-import_object p m name is_specific specific o)
        λ specific'. Keeps-import_objects p m name is_specific specific' os

  Keeps-import_table :
      (p : Bool) (m : ℕ) (specific : List Bytes) (table : Symbols)
      → Keeps (import_table p m specific table)
  unfolding import_table
  Keeps-import_table p m specific [] = Keeps-pure specific
  Keeps-import_table p m specific ((name, objs) ∷ table) =
      Keeps->>= _ _ (Keeps-import_objects p m name false specific objs)
        λ specific'. Keeps-import_table p m specific' table

  Keeps-import_member :
      (p : Bool) (m : ℕ) (specific : List Bytes) (z : ImportedMember) (objs : List ℕ)
      → Keeps (import_member p m specific z objs)
  unfolding import_member
  Keeps-import_member p m specific z [] = Keeps-raise _
  Keeps-import_member p m specific z (o ∷ os) = Keeps-import_objects p m _ true specific (o ∷ os)

  Keeps-import_members_of :
      (p : Bool) (m source : ℕ) (specific : List Bytes) (zs : List ImportedMember)
      → Keeps (import_members_of p m source specific zs)
  unfolding import_members_of
  Keeps-import_members_of p m source specific [] = Keeps-pure specific
  Keeps-import_members_of p m source specific (z ∷ zs) = Keeps->>= _ _ (Keeps-read _) λ objs.
      Keeps->>= _ _ (Keeps-import_member p m specific z objs)
        λ specific'. Keeps-import_members_of p m source specific' zs

  Keeps-import_name : (specific : List Bytes) (o : Option Bytes) → Keeps (import_name specific o)
  unfolding import_name
  Keeps-import_name specific none = Keeps-pure specific
  Keeps-import_name specific (some name) =
      Keeps-if (contains specific name) (Keeps-raise _) (Keeps-pure _)

  -- What the code asks of `getPublicSymbols` and `getAllSymbols`.
  abbrev pub KeepsAll : (Bool → ℕ → M (Unit {0})) → Type 0
  KeepsAll get = (p : Bool) (k : ℕ) → k < n → Keeps (get p k)

  Keeps-import_one :
      (get : Bool → ℕ → M (Unit {0})) (p : Bool) (m : ℕ) (specific : List Bytes) (i : Import)
      → KeepsAll get
      → SourceBelow n i
      → Keeps (import_one get p m specific i)
  unfolding import_one
  Keeps-import_one get p m specific (import_module v alias parts) h l = Keeps-import_name specific _
  Keeps-import_one get p m specific (import_star v source) h l =
      Keeps->> _ _ (h true source l)
        (Keeps->>= _ _ (Keeps-read _) λ table. Keeps-import_table p m specific table)
  Keeps-import_one get p m specific (import_members v source members) h l =
      Keeps->> _ _ (h true source l)
        (Keeps->> _ _ (h false source l) (Keeps-import_members_of p m source specific members))

  pub Keeps-import_all :
      (get : Bool → ℕ → M (Unit {0})) (p : Bool) (m : ℕ) (specific : List Bytes) (is : List Import)
      → KeepsAll get
      → SourcesBelow n is
      → Keeps (import_all get p m specific is)
  unfolding import_all
  Keeps-import_all get p m specific [] h l = Keeps-pure tt
  Keeps-import_all get p m specific (i ∷ is) h l =
      Keeps-if (p && is_private (import_visibility i)) (Keeps-import_all get p m specific is h l.1)
        (Keeps->>= _ _ (Keeps-import_one get p m specific i h l.0)
          λ specific'. Keeps-import_all get p m specific' is h l.1)
