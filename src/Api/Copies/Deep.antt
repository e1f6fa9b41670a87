-- ===== src/Api/Copies/Deep.antt =====
-- Copies that share nothing with their originals.
use k8s_docker_operator.Prelude.{
  ℕ, zero, suc, ◌+◌, ◌≡◌, refl, sym, ap, ◌∙◌, Option, none, some, List, [], ◌∷◌, ◌++◌, append_assoc,
  append-nil, length, length-append, get_elem?, arith,
}
use k8s_docker_operator.Api.Copies.Memory.{
  Heap, Kind, Fields, Copier, and_then, plain, ◌⊗◌, read_each, copy_each, each, load, there, at,
  read_set, copy_set, if_set, struct,
}

-- The copy `r` of what stood for `v` in `h`: only cells behind those of `h` are new, and with whatever in
-- place of the cells of `h`, the copy stands for `v`.
abbrev IsApart : {X A V : Type 0} → (A → Heap X → Option V) → Heap X → V → A × Heap X → Type 0
IsApart {X = X} read h v r =
    (new : Heap X) × (r.1 ≡ h ++ new)
    × ((other : Heap X) → length other ≡ length h → read r.0 (other ++ new) ≡ some v)

-- What a value stands for is not changed by new cells, and its copy is apart.
pub record IsDeep {X A V : Type 0} (c : Copier X A V) : Type 0 where
  pub stable :
      (a : A) (h more : Heap X) (v : V) → c.read a h ≡ some v → c.read a (h ++ more) ≡ some v
  pub apart : (a : A) (h : Heap X) (v : V) → c.read a h ≡ some v → IsApart c.read h v (c.copy a h)

pub and_then-some :
    {A B : Type 0} (o : Option A) (f : A → Option B) (b : B)
    → and_then o f ≡ some b
    → (a : A) × (o ≡ some a) × (f a ≡ some b)
and_then-some none f b e = absurd (ground arith)
and_then-some (some a) f b e = (a, refl, e)

module _ {X : Type 0} where
  pub plain-IsDeep : {A : Type 0} → IsDeep (plain {X = X} {A = A})
  plain-IsDeep = record {
    stable = λ a h more v e. e;
    apart = λ a h v e. ([], sym (append-nil h), λ other same. e);
  }

  -- Two copies, one after the other: what the first and then the second stand for, with whatever in place
  -- of the cells that were there before.
  both_apart :
      {A B V U : Type 0} {c : Copier X A V}
      → IsDeep c
      → (d : Copier X B U) (a : A) (b : B) (h : Heap X) (v : V) (u : U) → c.read a h ≡ some v
      → ((more : Heap X) → d.read b (h ++ more) ≡ some u)
      → ((h' : Heap X) → d.read b h' ≡ some u → IsApart d.read h' u (d.copy b h'))
      → (new : Heap X) × ((d.copy b (c.copy a h).1).1 ≡ h ++ new)
        × ((other : Heap X)
            → length other ≡ length h
            → (c.read (c.copy a h).0 (other ++ new) ≡ some v)
              × (d.read (d.copy b (c.copy a h).1).0 (other ++ new) ≡ some u))
  both_apart {c = c} deep d a b h v u got still next =
      let (new_a, grown_a, apart_a) = deep.apart a h v got in
      let (new_b, grown_b, apart_b) = next (c.copy a h).1 (rw grown_a (still new_a)) in
      (
        new_a ++ new_b,
        grown_b ∙ ap (λ l. l ++ new_b) grown_a ∙ append_assoc h new_a new_b,
        λ other same.
            let longer : length (other ++ new_a) ≡ length (c.copy a h).1 =
              length-append other new_a
              ∙ ap (λ n. n + length new_a) same
              ∙ sym (length-append h new_a)
              ∙ ap (λ l. length l) (sym grown_a) in
            rw (← append_assoc other new_a new_b) (
              deep.stable (c.copy a h).0 (other ++ new_a) new_b v (apart_a other same),
              apart_b (other ++ new_a) longer,
            ),
      )

  pub ⊗-IsDeep :
      {A B V U : Type 0} {c : Copier X A V} {d : Copier X B U}
      → IsDeep c
      → IsDeep d
      → IsDeep (c ⊗ d)
  ⊗-IsDeep {c = c} {d = d} deep_c deep_d = record {
    stable = λ p h more w e.
        let (v, got, rest) = and_then-some (c.read p.0 h) _ w e in
        let (u, got', same) = and_then-some (d.read p.1 h) _ w rest in
        rw (deep_c.stable p.0 h more v got, deep_d.stable p.1 h more u got') same;
    apart = λ p h w e.
        let (v, got, rest) = and_then-some (c.read p.0 h) _ w e in
        let (u, got', same) = and_then-some (d.read p.1 h) _ w rest in
        let (new, grown, reads) =
          both_apart deep_c d p.0 p.1 h v u got (λ more. deep_d.stable p.1 h more u got')
            (λ h' e'. deep_d.apart p.1 h' u e') in
        (
          new,
          grown,
          λ other same_length. let both = reads other same_length in rw (both.0, both.1) same,
        );
  }

  module _ {A V : Type 0} {c : Copier X A V} (deep : IsDeep c) where
    each-stable :
        (xs : List A) (h more : Heap X) (vs : List V)
        → read_each c xs h ≡ some vs
        → read_each c xs (h ++ more) ≡ some vs
    each-stable [] h more vs e = e
    each-stable (a ∷ xs) h more vs e =
        let (v, got, rest) = and_then-some (c.read a h) _ vs e in
        let (ws, got', same) = and_then-some (read_each c xs h) _ vs rest in
        rw (deep.stable a h more v got, each-stable xs h more ws got') same

    each-IsApart :
        (xs : List A) (h : Heap X) (vs : List V)
        → read_each c xs h ≡ some vs
        → IsApart (read_each c) h vs (copy_each c xs h)
    each-IsApart [] h vs e = ([], sym (append-nil h), λ other same. e)
    each-IsApart (a ∷ xs) h vs e =
        let (v, got, rest) = and_then-some (c.read a h) _ vs e in
        let (ws, got', same) = and_then-some (read_each c xs h) _ vs rest in
        let (new, grown, reads) =
          both_apart deep (each c) a xs h v ws got (λ more. each-stable xs h more ws got')
            (λ h' e'. each-IsApart xs h' ws e') in
        (
          new,
          grown,
          λ other same_length. let both = reads other same_length in rw (both.0, both.1) same,
        )

  pub each-IsDeep : {A V : Type 0} {c : Copier X A V} → IsDeep c → IsDeep (each c)
  each-IsDeep deep = record { stable = each-stable deep; apart = each-IsApart deep }

  get_elem?-append :
      (xs ys : Heap X) (i : ℕ) (x : X) → get_elem? xs i ≡ some x → get_elem? (xs ++ ys) i ≡ some x
  get_elem?-append [] ys i x e = absurd (ground arith)
  get_elem?-append (y ∷ xs) ys zero x e = e
  get_elem?-append (y ∷ xs) ys (suc i) x e = get_elem?-append xs ys i x e

  get_elem?-end : (xs : Heap X) (x : X) → get_elem? (xs ++ x ∷ []) (length xs) ≡ some x
  get_elem?-end [] x = refl
  get_elem?-end (y ∷ xs) x = get_elem?-end xs x

  module _ {A V : Type 0} (k : Kind X A) {c : Copier X A V} (deep : IsDeep c) where
    load-append :
        (p : ℕ) (h more : Heap X) (a : A) → load k p h ≡ some a → load k p (h ++ more) ≡ some a
    load-append p h more a e =
        let (x, got, same) = and_then-some (get_elem? h p) k.get a e in
        rw (get_elem?-append h more p x got) same

    there-stable :
        (p : ℕ) (h more : Heap X) (v : V)
        → (there k c).read p h ≡ some v
        → (there k c).read p (h ++ more) ≡ some v
    there-stable p h more v e =
        let (a, got, got') = and_then-some (load k p h) _ v e in
        rw (load-append p h more a got) (deep.stable a h more v got')

    there-IsApart :
        (p : ℕ) (h : Heap X) (v : V)
        → (there k c).read p h ≡ some v
        → IsApart (there k c).read h v ((there k c).copy p h)
    there-IsApart p h v e =
        let (a, got, got') = and_then-some (load k p h) _ v e in
        let (new, grown, reads) = deep.apart a h v got' in
        let (a', h') = c.copy a h in
        rw got (
          new ++ k.put a' ∷ [],
          ap (λ l. l ++ k.put a' ∷ []) grown ∙ append_assoc h new (k.put a' ∷ []),
          λ other same_length.
              let longer : length (other ++ new) ≡ length h' =
                length-append other new
                ∙ ap (λ n. n + length new) same_length
                ∙ sym (length-append h new)
                ∙ ap (λ l. length l) (sym grown) in
              rw
                (
                  ← append_assoc other new (k.put a' ∷ []),
                  ← longer,
                  get_elem?-end (other ++ new) (k.put a'),
                  k.get-put a',
                )
                (deep.stable a' (other ++ new) (k.put a' ∷ []) v (reads other same_length)),
        )

  pub there-IsDeep :
      {A V : Type 0} (k : Kind X A) {c : Copier X A V} → IsDeep c → IsDeep (there k c)
  there-IsDeep k deep = record { stable = there-stable k deep; apart = there-IsApart k deep }

  module _ {V : Type 0} {c : Copier X ℕ V} (deep : IsDeep c) where
    if_set-stable :
        (p : Option ℕ) (h more : Heap X) (w : Option V)
        → read_set c p h ≡ some w
        → read_set c p (h ++ more) ≡ some w
    if_set-stable none h more w e = e
    if_set-stable (some p) h more w e =
        let (v, got, same) = and_then-some (c.read p h) _ w e in
        rw (deep.stable p h more v got) same

    if_set-IsApart :
        (p : Option ℕ) (h : Heap X) (w : Option V)
        → read_set c p h ≡ some w
        → IsApart (read_set c) h w (copy_set c p h)
    if_set-IsApart none h w e = ([], sym (append-nil h), λ other same. e)
    if_set-IsApart (some p) h w e =
        let (v, got, same) = and_then-some (c.read p h) _ w e in
        let (new, grown, reads) = deep.apart p h v got in
        (new, grown, λ other same_length. rw (reads other same_length) same)

  pub if_set-IsDeep : {V : Type 0} {c : Copier X ℕ V} → IsDeep c → IsDeep (if_set c)
  if_set-IsDeep deep = record { stable = if_set-stable deep; apart = if_set-IsApart deep }

  pub at-IsDeep : {A V : Type 0} (k : Kind X A) {c : Copier X A V} → IsDeep c → IsDeep (at k c)
  at-IsDeep k deep = if_set-IsDeep (there-IsDeep k deep)

  pub struct-IsDeep :
      {S A R V : Type 0} (f : Fields S A R) {c : Copier X A V} → IsDeep c → IsDeep (struct f c)
  struct-IsDeep f {c = c} deep = record {
    stable = λ s h more w e.
        let (v, got, same) = and_then-some (c.read (f.get s) h) _ w e in
        rw (deep.stable (f.get s) h more v got) same;
    apart = λ s h w e.
        let (v, got, same) = and_then-some (c.read (f.get s) h) _ w e in
        let (new, grown, reads) = deep.apart (f.get s) h v got in
        let (a', h') = c.copy (f.get s) h in
        (
          new,
          grown,
          λ other same_length. rw (f.get-put s a', f.rest-put s a', reads other same_length) same,
        );
  }
