-- ===== src/Api/Copies/Memory.antt =====
-- Memory as copies see it: cells at addresses, of which the newest has the highest. A slice, a map or what a
-- pointer points at is one cell, and a value that has pointers has their addresses. `X` is what one cell
-- holds.
use k8s_docker_operator.Prelude.{ℕ, ◌≡◌, Option, none, some, List, [], ◌∷◌, ◌++◌, length, get_elem?}

abbrev pub Heap : Type 0 → Type 0
Heap X = List X

-- The values that one kind of cell holds.
pub record Kind (X A : Type 0) : Type 0 where
  pub put : A → X
  pub get : X → Option A
  pub get-put : (a : A) → get (put a) ≡ some a

-- The fields of a struct that are copied on their own, and the rest of it.
pub record Fields (S A R : Type 0) : Type 0 where
  pub get : S → A
  pub rest : S → R
  pub put : S → A → S
  pub get-put : (s : S) (a : A) → get (put s a) ≡ a
  pub rest-put : (s : S) (a : A) → rest (put s a) ≡ rest s

-- What a value stands for in a memory, `none` where an address leads nowhere, and its `DeepCopyInto`, which
-- gives the copy and the memory after it.
pub record Copier (X A V : Type 0) : Type 0 where
  pub read : A → Heap X → Option V
  pub copy : A → Heap X → A × Heap X

abbrev pub and_then : {A B : Type 0} → Option A → (A → Option B) → Option B
and_then none f = none
and_then (some a) f = f a

module _ {X : Type 0} where
  -- `*out = *in` of a value without pointers.
  abbrev pub plain : {A : Type 0} → Copier X A A
  plain = record { read = λ a h. some a; copy = λ a h. (a, h) }

  infixr 60 ◌⊗◌
  abbrev pub ◌⊗◌ : {A B V U : Type 0} → Copier X A V → Copier X B U → Copier X (A × B) (V × U)
  c ⊗ d = record {
    read = λ (a, b) h. and_then (c.read a h) (λ v. and_then (d.read b h) (λ u. some (v, u)));
    copy = λ (a, b) h. let (a', h') = c.copy a h in let (b', h'') = d.copy b h' in ((a', b'), h'');
  }

  -- The loop over the elements of a slice.
  abbrev pub read_each : {A V : Type 0} → Copier X A V → List A → Heap X → Option (List V)
  read_each c [] h = some []
  read_each c (a ∷ rest) h =
      and_then (c.read a h) (λ v. and_then (read_each c rest h) (λ vs. some (v ∷ vs)))

  abbrev pub copy_each : {A V : Type 0} → Copier X A V → List A → Heap X → List A × Heap X
  copy_each c [] h = ([], h)
  copy_each c (a ∷ rest) h =
      let (a', h') = c.copy a h in let (rest', h'') = copy_each c rest h' in (a' ∷ rest', h'')

  abbrev pub each : {A V : Type 0} → Copier X A V → Copier X (List A) (List V)
  each c = record { read = read_each c; copy = copy_each c }

  -- What is at an address is copied into a cell of its own. The cell stands in the memory when its content
  -- is known. At an address that leads nowhere there is nothing to copy.
  abbrev pub load : {A : Type 0} → Kind X A → ℕ → Heap X → Option A
  load k p h = and_then (get_elem? h p) k.get

  abbrev pub store : {A : Type 0} → Kind X A → A × Heap X → ℕ × Heap X
  store k (a, h) = (length h, h ++ k.put a ∷ [])

  abbrev copy_loaded : {A V : Type 0} → Kind X A → Copier X A V → ℕ → Option A → Heap X → ℕ × Heap X
  copy_loaded k c p none h = (p, h)
  copy_loaded k c p (some a) h = store k (c.copy a h)

  abbrev pub there : {A V : Type 0} → Kind X A → Copier X A V → Copier X ℕ V
  there k c = record {
    read = λ p h. and_then (load k p h) (λ a. c.read a h);
    copy = λ p h. copy_loaded k c p (load k p h) h;
  }

  -- A pointer, slice or map: nil stays nil.
  abbrev pub read_set : {V : Type 0} → Copier X ℕ V → Option ℕ → Heap X → Option (Option V)
  read_set c none h = some none
  read_set c (some p) h = and_then (c.read p h) (λ v. some (some v))

  abbrev pub copy_set : {V : Type 0} → Copier X ℕ V → Option ℕ → Heap X → Option ℕ × Heap X
  copy_set c none h = (none, h)
  copy_set c (some p) h = let (p', h') = c.copy p h in (some p', h')

  abbrev pub if_set : {V : Type 0} → Copier X ℕ V → Copier X (Option ℕ) (Option V)
  if_set c = record { read = read_set c; copy = copy_set c }

  abbrev pub at : {A V : Type 0} → Kind X A → Copier X A V → Copier X (Option ℕ) (Option V)
  at k c = if_set (there k c)

  -- A pointer that is copied as it is.
  abbrev pub shared : {A V : Type 0} → Kind X A → Copier X A V → Copier X (Option ℕ) (Option V)
  shared k c = record { read = read_set (there k c); copy = λ p h. (p, h) }

  -- `*out = *in`, then the copies of some fields. The struct stands for its other fields and for what those
  -- stand for.
  abbrev pub struct : {S A R V : Type 0} → Fields S A R → Copier X A V → Copier X S (R × V)
  struct f c = record {
    read = λ s h. and_then (c.read (f.get s) h) (λ v. some (f.rest s, v));
    copy = λ s h. let (a, h') = c.copy (f.get s) h in (f.put s a, h');
  }
