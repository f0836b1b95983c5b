-- ===== src/NodeList/Sorted.antt =====
-- Digests may be freed in any order, as after `node_list_sort`.
use mathlib.Core.List.{Permᴰ}
use distributed_hash_table.Prelude.{
  ok_before, ℕ, List, [], ◌∷◌, true, false, ◌==◌, ◌⊎◌, Option, none, some, ok, arith, ◌≡◌, refl, ap,
  sym, ◌∙◌, Bool-cases, inl, inr,
}
use distributed_hash_table.NodeList.Lifetimes.{
  StoredNode, Memory, without, free_digest, node_end, free_loop,
}

without-here :
    (p : ℕ) (d : ℕ × List ℕ) (ds : List (ℕ × List ℕ)) → p == d.0 ≡ true → without p (d ∷ ds) ≡ ok ds
unfolding without
without-here p d ds e = rw e refl

without-there :
    (p : ℕ) (d : ℕ × List ℕ) (ds rest : List (ℕ × List ℕ))
    → p == d.0 ≡ false
    → without p ds ≡ ok rest
    → without p (d ∷ ds) ≡ ok (d ∷ rest)
unfolding without
without-there p d ds rest e run = rw (e, run) refl

-- What `without` returns, by cases.
without-cons :
    (p : ℕ) (d : ℕ × List ℕ) (ds rest : List (ℕ × List ℕ))
    → without p (d ∷ ds) ≡ ok rest
    → ((p == d.0 ≡ true) × (rest ≡ ds))
      ⊎ ((p == d.0 ≡ false)
          × (rest' : List (ℕ × List ℕ)) × (without p ds ≡ ok rest')
          × (rest ≡ d ∷ rest'))
unfolding without
without-cons p d ds rest run = elim (Bool-cases (p == d.0)) [
  | inl e ↦ inl (e, cc (rw e at run))
  | inr e ↦
      let (rest', run', same) =
        ok_before (without p ds) (λ digests'. ok (d ∷ digests')) rest (rw e at run) in
      inr (e, rest', run', cc same)
]

without-swap :
    (p q : ℕ) (ds ds1 ds2 : List (ℕ × List ℕ))
    → without p ds ≡ ok ds1
    → without q ds1 ≡ ok ds2
    → (ds' : List (ℕ × List ℕ)) × (without q ds ≡ ok ds') × (without p ds' ≡ ok ds2)
without-swap p q [] ds1 ds2 first second = unfold without in absurd (cc first)
without-swap p q (d ∷ ds) ds1 ds2 first second = elim (without-cons p d ds ds1 first) [
  | inl (here, same) ↦
      let second' : without q ds ≡ ok ds2 = ap (without q) (sym same) ∙ second in
      elim (Bool-cases (q == d.0)) [
        | inl also ↦
            let e : p ≡ q = ground arith in
            (ds, without-here q d ds also, ap (λ p. without p ds) e ∙ second')
        | inr other ↦ (d ∷ ds2, without-there q d ds ds2 other second', without-here p d ds2 here)
      ]
  | inr (there, rest, run, same) ↦
      elim (without-cons q d rest ds2 (ap (without q) (sym same) ∙ second)) [
        | inl (here, same') ↦ (ds, without-here q d ds here, run ∙ ap ok (sym same'))
        | inr (there', rest', run', same') ↦
            let (ds', run'', last) = without-swap p q ds rest rest' run run' in
            (
              d ∷ ds',
              without-there q d ds ds' there' run'',
              without-there p d ds' rest' there last ∙ ap ok (sym same'),
            )
      ]
]

free_digest-swap :
    (a b : Option ℕ) (m m1 m2 : Memory)
    → free_digest m a ≡ ok m1
    → free_digest m1 b ≡ ok m2
    → (m' : Memory) × (free_digest m b ≡ ok m') × (free_digest m' a ≡ ok m2)
unfolding free_digest
free_digest-swap none b m m1 m2 first second =
    let same : m ≡ m1 = cc first in (m2, ap (λ m. free_digest m b) same ∙ second, refl)
free_digest-swap (some p) none m m1 m2 first second =
    let same : m1 ≡ m2 = cc second in (m, refl, first ∙ ap ok same)
free_digest-swap (some p) (some q) m m1 m2 first second =
    let (ds1, run, same) =
      ok_before (without p m.digests) (λ ds. ok (record m { digests = ds })) m1 first in
    let m1_is : record m { digests = ds1 } ≡ m1 = cc same in
    let (ds2, run', same') =
      ok_before (without q ds1) (λ ds. ok (record m { digests = ds })) m2
        (ap (λ m. free_digest m (some q)) m1_is ∙ second) in
    let (ds', run'', last) = without-swap p q m.digests ds1 ds2 run run' in
    (record m { digests = ds' }, rw run'' refl, rw last same')

free_loop-cons :
    (m m' : Memory) (node : StoredNode) (nodes : List StoredNode)
    → free_loop m (node ∷ nodes) ≡ ok m'
    → (m1 : Memory) × (free_digest m node.sha ≡ ok m1) × (free_loop m1 nodes ≡ ok m')
unfolding free_loop node_end
free_loop-cons m m' node nodes run =
    let (r, ended, rest) = ok_before (node_end m (some node)) (λ r. free_loop r.0 nodes) m' run in
    let (m1, freed, same) =
      ok_before (free_digest m node.sha) (λ m1. ok (m1, some (record node { sha = none }))) r
        ended in
    (m1, freed, let e : m1 ≡ r.0 = cc same in ap (λ m. free_loop m nodes) e ∙ rest)

cons-free_loop :
    (m m1 m' : Memory) (node : StoredNode) (nodes : List StoredNode)
    → free_digest m node.sha ≡ ok m1
    → free_loop m1 nodes ≡ ok m'
    → free_loop m (node ∷ nodes) ≡ ok m'
unfolding free_loop node_end
cons-free_loop m m1 m' node nodes freed rest = rw freed rest

pub free_loop-Permᴰ :
    {nodes nodes' : List StoredNode} (m m' : Memory)
    → Permᴰ nodes nodes'
    → free_loop m nodes ≡ ok m'
    → free_loop m nodes' ≡ ok m'
free_loop-Permᴰ m m' Permᴰ.nil run = run
free_loop-Permᴰ m m' (Permᴰ.cons {a = a} {b = b} {l₁ = l} {l₂ = l'} e p) run =
    let (m1, freed, rest) = free_loop-cons m m' a l run in
    cons-free_loop m m1 m' b l' (ap (λ (n : StoredNode). free_digest m n.sha) (sym e) ∙ freed)
      (free_loop-Permᴰ m1 m' p rest)
free_loop-Permᴰ m m' (Permᴰ.swap {a = a} {b = b} {a' = a'} {b' = b'} {l = l} e e') run =
    let (m1, freed, run') = free_loop-cons m m' a (b ∷ l) run in
    let (m2, freed', rest) = free_loop-cons m1 m' b l run' in
    let (m1', first, second) = free_digest-swap a.sha b.sha m m1 m2 freed freed' in
    cons-free_loop m m1' m' a' (b' ∷ l)
      (ap (λ (n : StoredNode). free_digest m n.sha) (sym e') ∙ first)
      (cons-free_loop m1' m2 m' b' l
        (ap (λ (n : StoredNode). free_digest m1' n.sha) (sym e) ∙ second) rest)
free_loop-Permᴰ m m' (Permᴰ.trans p q) run = free_loop-Permᴰ m m' q (free_loop-Permᴰ m m' p run)
