-- ===== src/Cache/Holds.antt =====
-- cache.go: how the account of a node follows the holds on it.
use vgpu_scheduler.Prelude.{
  ℕ, ◌+◌, ◌≡◌, refl, String, false, if◌then◌else◌, some, inl, inr, arith, str_eq, str_eq_iff,
  str_eq_refl, Option-cases, Bool-cases,
}
use vgpu_scheduler.Prelude.Dict.{Dict, lookup, insert, total, lookup-insert}
use vgpu_scheduler.Cache.{
  NodeState, AssumedAllocation, VramCache, update_at, charge_reserved, credit_reserved,
}

-- What a hold takes of a node.
abbrev pub weigh : String → AssumedAllocation → ℕ
weigh n a = if str_eq a.node n then a.bytes else 0

-- The bytes that the holds of a map take of a node.
abbrev pub held : String → Dict AssumedAllocation → ℕ
held n m = total (weigh n) m

abbrev pub held_on : VramCache → String → ℕ
held_on c n = held n c.assumed + held n c.confirmed

-- Every node has reserved exactly what a function says.
pub record Reserves (nodes : Dict NodeState) (h : String → ℕ) : Type 0 where
  pub exact : (n : String) (s : NodeState) → lookup n nodes ≡ some s → s.reserved ≡ h n

pub Reserves-insert :
    (nodes : Dict NodeState) (h k : String → ℕ) (name : String) (s : NodeState)
    → Reserves nodes h
    → s.reserved ≡ k name
    → ((n : String) → str_eq name n ≡ false → h n ≡ k n)
    → Reserves (insert name s nodes) k
Reserves-insert nodes h k name s r e rest = record {
  exact = λ n t l. elim (Bool-cases (str_eq name n)) [
    | inl same ↦ ground (arith, lookup-insert name n s nodes, str_eq_iff name n)
    | inr other ↦ ground (arith, lookup-insert name n s nodes, rest n, r.exact n t)
  ];
}

pub Reserves-charge :
    (nodes : Dict NodeState) (h k : String → ℕ) (s : NodeState) (a : AssumedAllocation)
    → Reserves nodes h
    → lookup a.node nodes ≡ some s
    → ((n : String) → k n ≡ h n + weigh n a)
    → Reserves (insert a.node (charge_reserved a.bytes s) nodes) k
unfolding charge_reserved
Reserves-charge nodes h k s a r l more =
    Reserves-insert nodes h k a.node _ r
      (ground (arith, r.exact a.node s l, more a.node, str_eq_refl a.node))
      (λ n other. ground (arith, more n))

pub Reserves-credit :
    (c : VramCache) (h k : String → ℕ) (a : AssumedAllocation)
    → Reserves c.nodes h
    → ((n : String) → k n + weigh n a ≡ h n)
    → Reserves (update_at a.node (credit_reserved a.bytes) c).nodes k
unfolding update_at credit_reserved
Reserves-credit c h k a r less = elim (Option-cases (lookup a.node c.nodes)) [
  | inl e ↦
      rw (e, update_at)
        (record { exact = λ n s l. ground (arith, r.exact n s l, less n, str_eq_iff a.node n) })
  | inr (s, e) ↦
      rw (e, update_at)
        (Reserves-insert c.nodes h k a.node (credit_reserved a.bytes s) r
          (ground (arith, r.exact a.node s e, less a.node, str_eq_refl a.node))
          (λ n other. ground (arith, less n)))
]

-- A call that leaves every reservation alone.
pub Reserves-update_at :
    (c : VramCache) (h : String → ℕ) (name : String) (f : NodeState → NodeState)
    → Reserves c.nodes h
    → ((s : NodeState) → (f s).reserved ≡ s.reserved)
    → Reserves (update_at name f c).nodes h
unfolding update_at
Reserves-update_at c h name f r same = elim (Option-cases (lookup name c.nodes)) [
  | inl e ↦ rw (e, update_at) r
  | inr (s, e) ↦
      rw (e, update_at)
        (Reserves-insert c.nodes h h name (f s) r (ground (arith, same s, r.exact name s e))
          (λ n _. refl))
]

pub Reserves-ext :
    (nodes : Dict NodeState) (h k : String → ℕ)
    → Reserves nodes h
    → ((n : String) → h n ≡ k n)
    → Reserves nodes k
Reserves-ext nodes h k r e = record { exact = λ n s l. ground (arith, r.exact n s l, e n) }
