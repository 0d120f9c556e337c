-- ===== src/IntentGraph/Paths.antt =====
-- Dependency paths of an intent graph, and lists of nodes in an order of their dependencies.
use mathlib.Core.Path.{subst}
use verigate.Base.{
  inl, inr, [], ◌∷◌, true, ◌≡◌, ◌==◌, string_eq, String, List, contains, Bool-cases, ==_sound,
  arith,
}
use verigate.IntentGraph.{relation_eq, IntentGraph, dependencies_of}

module _ (g : IntentGraph) where
  -- an edge from a node to one that it depends on
  abbrev pub Needs : String → String → Type 0
  Needs a b = contains (dependencies_of g a) b ≡ true

  -- a path of one or more dependencies
  pub data Reaches : String → String → Type 0 where
    one : (a b : String) → Needs a b → Reaches a b
    more : (a b c : String) → Needs a b → Reaches b c → Reaches a c

  abbrev pub Acyclic : Type 0
  Acyclic = (a : String) → ¬ Reaches a a

  pub Reaches-snoc : {a b : String} (c : String) → Reaches a b → Needs b c → Reaches a c
  Reaches-snoc c (one a b n) m = more a b c n (one b c m)
  Reaches-snoc c (more a d b n r) m = more a d c n (Reaches-snoc c r m)

  -- Each node comes after all that it depends on, the last one first.
  abbrev pub InOrder : List String → Type 0
  InOrder [] = Unit
  InOrder (v ∷ vs) = ((d : String) → Needs v d → contains vs d ≡ true) × InOrder vs

  pub InOrder-closed :
      (a b : String) (vs : List String)
      → InOrder vs
      → contains vs a ≡ true
      → Needs a b
      → contains vs b ≡ true
  InOrder-closed a b [] o h n = cc
  InOrder-closed a b (v ∷ vs) o h n = elim (Bool-cases (a == v)) [
    | inl e ↦ (let same = ==_sound a v e in ground (arith, o.0 b (subst (λ x. Needs x b) same n)))
    | inr ne ↦ ground (arith, InOrder-closed a b vs o.1)
  ]

  reached :
      {a b : String} (vs : List String)
      → InOrder vs
      → contains vs a ≡ true
      → Reaches a b
      → contains vs b ≡ true
  reached vs o h (one a b n) = InOrder-closed a b vs o h n
  reached vs o h (more a b c n r) = reached vs o (InOrder-closed a b vs o h n) r

  after_head :
      {a b : String} (v : String) (vs : List String)
      → InOrder (v ∷ vs)
      → a ≡ v
      → Reaches a b
      → contains vs b ≡ true
  after_head v vs o e (one a b n) = o.0 b (subst (λ x. Needs x b) e n)
  after_head v vs o e (more a b c n r) = reached vs o.1 (o.0 b (subst (λ x. Needs x b) e n)) r

  pub InOrder-Acyclic :
      (vs : List String) → InOrder vs → (a : String) → contains vs a ≡ true → ¬ Reaches a a
  InOrder-Acyclic [] o a h r = cc
  InOrder-Acyclic (v ∷ vs) o a h r = elim (Bool-cases (a == v)) [
    | inl e ↦ InOrder-Acyclic vs o.1 a (after_head v vs o (==_sound a v e) r) r
    | inr ne ↦ InOrder-Acyclic vs o.1 a (ground arith) r
  ]

  -- a path starts at a node that has dependencies
  pub Reaches-source : {a b : String} → Reaches a b → (c : String) × Needs a c
  Reaches-source (one a b n) = (b, n)
  Reaches-source (more a b c n r) = (b, n)

  -- Every node of a path leads to `x`.
  abbrev pub LeadTo : List String → String → Type 0
  LeadTo path x = (y : String) → contains path y ≡ true → Reaches y x

  pub LeadTo-step :
      (x d : String) → Needs x d → (path : List String) → LeadTo path x → LeadTo (x ∷ path) d
  LeadTo-step x d k path lead y h = elim (Bool-cases (y == x)) [
    | inl e ↦ rw (==_sound y x e) (one x d k)
    | inr ne ↦ Reaches-snoc d (lead y (ground arith)) k
  ]
