-- ===== src/Auth/Capability/Ops.antt =====
-- internal/auth/capability.go: the intersection of operation sets.
use ably_server.Base.{
  ◌≡◌, refl, inl, inr, ◌&&◌, List, [], ◌∷◌, arith, Bool-cases, bytes_eq, bytes_eq_iff,
  bytes_eq_refl,
}
use ably_server.Auth.Capability.{Op, op_wildcard, contains_op, grants, common_ops, intersect_ops}

contains_op-common_ops :
    (o : Op) (a b : List Op) → contains_op o (common_ops a b) ≡ (contains_op o a && contains_op o b)
unfolding common_ops
contains_op-common_ops o [] b = refl
contains_op-common_ops o (x ∷ a) b = elim (Bool-cases (bytes_eq x o)) [
  | inl same ↦
      rw ((bytes_eq_iff x o).0 same) (ground (arith, contains_op-common_ops o a b, bytes_eq_refl o))
  | inr other ↦ ground (arith, contains_op-common_ops o a b)
]

-- The intersected set grants exactly the operations that both sets grant, wildcards included.
pub grants-intersect_ops :
    (a b : List Op) (o : Op) → grants (intersect_ops a b) o ≡ (grants a o && grants b o)
unfolding intersect_ops
grants-intersect_ops a b o = ground (
  arith,
  contains_op-common_ops o a b,
  contains_op-common_ops op_wildcard a b,
  bytes_eq_refl op_wildcard,
)
