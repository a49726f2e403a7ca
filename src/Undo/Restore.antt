-- ===== src/Undo/Restore.antt =====
-- Undoing an edit with the buffer of modules/editor/a_undo_buffer.cpp gives the registry back.
use mathlib.Core.Path.{subst}
use mathlib.Core.Option.{some-injective}
use esp32_particulate_sensor.Prelude.{
  ℕ, ◌≡◌, zero, suc, length-set, refl, ap, Option, none, some, List, [], ◌∷◌, arith, set, write,
  ltb, length, get_elem?, Option-cases, Bool-cases, inl, inr, suc,
}
use esp32_particulate_sensor.Ecs.Pool.{ComponentPool, get}
use esp32_particulate_sensor.Ecs.Registry.{find_pool, put_pool, pool_of}
use esp32_particulate_sensor.Undo.{CommandType, assign, undo, undo_func, push_command}
use esp32_particulate_sensor.Undo.Stack.{Command, evict, represent}
use esp32_particulate_sensor.Undo.Refinement.{push_command_lem, undo_lem}

set-set {ℓ} :
    {A : Type ℓ} (xs : List A) (i : ℕ) (a b : A)
    → get_elem? xs i ≡ some b
    → set (set xs i a) i b ≡ xs
set-set [] i a b h = cc
set-set (x ∷ xs) zero a b h = ground arith
set-set (x ∷ xs) (suc i) a b h = ap (λ t. x ∷ t) (set-set xs i a b h)

write_back {ℓ} :
    {A : Type ℓ} (xs ys : List A) (i : ℕ) (a b : A)
    → get_elem? xs i ≡ some b
    → write xs i a ≡ some ys
    → write ys i b ≡ some xs
write_back xs ys i a b at h = elim (Bool-cases (ltb i (length xs))) [
  | inl fits ↦
      let same : some (set xs i a) ≡ some ys = rw fits at h in
      subst (λ zs. write zs i b ≡ some xs) (some-injective (set xs i a) ys same)
        (rw (length-set xs i a, fits) (ap some (set-set xs i a b at)))
  | inr out ↦ let bad : none ≡ some ys = rw out at h in cc bad
]

module _ {K C : Type 0} (same_type : Discrete K) (pool_type : CommandType → K)
    (read_payload : CommandType → List ℕ → Option (ℕ × C)) where
  assign_back :
      (p q : ComponentPool C) (e : ℕ) (new old : C)
      → get p e ≡ some old
      → assign p e new ≡ some q
      → assign q e old ≡ some p
  unfolding assign get
  assign_back p q e new old at h = elim (Option-cases (get_elem? p.m_sparse e)) [
    | inl out ↦ let bad : none ≡ some q = rw (out, assign) at h in cc bad
    | inr (index, found) ↦ elim (Option-cases (write p.m_data index new)) [
      | inl out ↦ let bad : none ≡ some q = rw (found, assign, out) at h in cc bad
      | inr (content, written) ↦
          let same : some (record p { m_data = content }) ≡ some q =
            rw (found, assign, written) at h in
          let old_at : get_elem? p.m_data index ≡ some old = rw (found, get) at at in
          subst (λ r. assign r e old ≡ some p)
            (some-injective (record p { m_data = content }) q same)
            (rw (found, write_back p.m_data content index new old old_at written) refl)
    ]
  ]

  -- A pool that is put over the same type's pool.
  put_pool-back :
      (k : K) (p q : ComponentPool C) (pools : List (K × ComponentPool C))
      → find_pool same_type k pools ≡ some p
      → (find_pool same_type k (put_pool same_type k q pools) ≡ some q)
        × (put_pool same_type k p (put_pool same_type k q pools) ≡ pools)
  unfolding find_pool put_pool
  put_pool-back k p q [] h = cc
  put_pool-back k p q ((j, o) ∷ pools) h = ground (arith, put_pool-back k p q pools)

  -- An edit of a component whose old value was pushed is undone: `undo` then succeeds and gives the
  -- registry before the edit and the buffer without the command.
  pub undo-push_command :
      (cs : List Command) (t : CommandType) (payload : List ℕ) (pools : List (K × ComponentPool C))
      (active : List ℕ) (next : ℕ) (p q : ComponentPool C) (e : ℕ) (new old : C)
      → read_payload t payload ≡ some (e, old)
      → find_pool same_type (pool_type t) pools ≡ some p
      → get p e ≡ some old
      → assign p e new ≡ some q
      → undo same_type pool_type read_payload (push_command (represent cs) t payload) (record {
        m_active_entities = active;
        m_pools = put_pool same_type (pool_type t) q pools;
        m_next_id = next;
      })
        ≡ some (
          represent (evict cs),
          record { m_active_entities = active; m_pools = pools; m_next_id = next },
        )
  unfolding undo_func pool_of
  undo-push_command cs t payload pools active next p q e new old read found was edit =
      let back = put_pool-back (pool_type t) p q pools found in
      rw
        (
          push_command_lem cs t payload,
          (undo_lem same_type pool_type read_payload (evict cs) t payload _).0,
          undo_func,
          read,
          pool_of,
          back.0,
          assign_back p q e new old was edit,
          back.1,
        )
        refl
