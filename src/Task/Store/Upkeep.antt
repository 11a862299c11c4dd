-- ===== src/Task/Store/Upkeep.antt =====
-- The two ways in which an operation of store.rs changes one entry, and the invariant: an entry that
-- weighs the same is written back, or a task that has become terminal is settled.
use thoughtgate.Base.{
  ℕ, suc, ◌+◌, ◌<◌, ◌≡◌, refl, sym, ◌∙◌, String, some, inl, inr, if◌then◌else◌, str_eq, str_eq→eq,
  str_eq_refl, usize_end, wrapping_sub, arith, Option-cases, Bool-cases,
}
use thoughtgate.Base.Dict.{
  Dict, lookup, insert, total, total-insert_old, le-total, AllEntries-insert, AllEntries-lookup,
  IsDistinct, insert-IsDistinct, lookup-insert, lookup-insert_self, lookup-erase, erase-IsDistinct,
}
use thoughtgate.Task.Methods.{rate_limit_key}
use thoughtgate.Task.Store.State.{
  TaskEntry, TaskStore, principal_count, put, settle, lower, remove_if_zero,
}
use thoughtgate.Task.Store.Invariant.{
  pending_weight, bytes_weight, key_weight, IsKept, Inv, SameWeight, HasEnded,
}

-- Lowering the counter of one key: the entry goes when the counter comes to zero.
remove_if_zero-count :
    (k key : String) (n : ℕ) (d : Dict ℕ)
    → IsDistinct d
    → lookup k d ≡ some n
    → principal_count key (remove_if_zero k d) ≡ principal_count key d
unfolding principal_count
remove_if_zero-count k key n d h there = ground (arith, lookup-erase k key d h, str_eq→eq k key)

remove_if_zero-IsDistinct :
    (k : String) (d : Dict ℕ) → IsDistinct d → IsDistinct (remove_if_zero k d)
remove_if_zero-IsDistinct k d h = ground (arith, erase-IsDistinct k d h)

module _ (k : String) (d : Dict ℕ) (distinct : IsDistinct d) (n : ℕ)
    (there : lookup k d ≡ some n) where
  lowered-IsDistinct : IsDistinct (lower k d (lookup k d))
  unfolding lower
  lowered-IsDistinct =
      let lowered = insert-IsDistinct k (wrapping_sub n 1) d distinct in
      rw (there, lower)
        (ground
          (arith, lowered, remove_if_zero-IsDistinct k (insert k (wrapping_sub n 1) d) lowered))

  inserted-count :
      (key : String)
      → 0 < n
      → n < usize_end
      → principal_count key (insert k (wrapping_sub n 1) d) + (if str_eq k key then 1 else 0)
        ≡ principal_count key d
  unfolding principal_count
  inserted-count key pos small = elim (Bool-cases (str_eq k key)) [
    | inl hit ↦
        rw (lookup-insert k key (wrapping_sub n 1) d, hit, ← str_eq→eq k key hit, there)
          (omega arith)
    | inr miss ↦ rw (lookup-insert k key (wrapping_sub n 1) d, miss) (omega arith)
  ]

  lowered-count :
      (key : String)
      → 0 < n
      → n < usize_end
      → principal_count key (lower k d (lookup k d)) + (if str_eq k key then 1 else 0)
        ≡ principal_count key d
  unfolding lower
  lowered-count key pos small =
      let inserted = inserted-count key pos small in
      let lowered = insert-IsDistinct k (wrapping_sub n 1) d distinct in
      let entry = lookup-insert_self k (wrapping_sub n 1) d in
      rw (there, lower)
        (ground (
          arith,
          inserted,
          remove_if_zero-count k key (wrapping_sub n 1) (insert k (wrapping_sub n 1) d) lowered
              entry,
        ))

module _ (id : String) (e : TaskEntry) (s : TaskStore) (there : lookup id s.tasks ≡ some e) where
  -- The sum after an entry is replaced by one of the same weight.
  total-same :
      (w : TaskEntry → ℕ) (e' : TaskEntry)
      → w e' ≡ w e
      → total w (insert id e' s.tasks) ≡ total w s.tasks
  total-same w e' h = omega (arith, total-insert_old w id e' e s.tasks there)

  pub put-Inv : (e' : TaskEntry) → SameWeight e e' → Inv s → Inv (put id e' s)
  unfolding put
  put-Inv e' same inv = record {
    sized = inv.sized;
    counted = inv.counted ∙ sym (total-same pending_weight e' (ground arith));
    weighed = inv.weighed ∙ sym (total-same bytes_weight e' (ground arith));
    counted_by_key =
        λ key. inv.counted_by_key key ∙ sym (total-same (key_weight key) e' (ground arith));
    count_bounded = inv.count_bounded;
    key_bounded = inv.key_bounded;
    bytes_bounded = inv.bytes_bounded;
    tasks_distinct = insert-IsDistinct id e' s.tasks inv.tasks_distinct;
    counts_distinct = inv.counts_distinct;
    kept = AllEntries-insert IsKept id e' s.tasks inv.kept kept_e';
  }
    where
      kept_e : IsKept id e
      kept_e = AllEntries-lookup IsKept id e s.tasks inv.kept there

      kept_e' : IsKept id e'
      kept_e' = record {
        under_id = same.same_id ∙ kept_e.under_id;
        ended = rw (same.same_end, same.same_terminal) kept_e.ended;
      }

  module _ (e' : TaskEntry) (done : HasEnded e e') (inv : Inv s) where
    owner : String
    owner = rate_limit_key e'.task.principal

    owner_weight : (key : String) → key_weight key e ≡ (if str_eq owner key then 1 else 0)
    unfolding owner
    owner_weight key = rw (done.was_pending, done.same_principal) refl

    owner_weight_self : key_weight owner e ≡ 1
    owner_weight_self = owner_weight owner ∙ rw (str_eq_refl owner)

    owner_count_pos : 0 < principal_count owner s.pending_by_principal
    owner_count_pos = omega (
      arith,
      inv.counted_by_key owner,
      le-total (key_weight owner) id e s.tasks there,
      owner_weight_self,
    )

    -- The owner of a pending task has a counter, and it is positive.
    owner_counter :
        (n : ℕ) × (lookup owner s.pending_by_principal ≡ some n) × (0 < n) × (n < usize_end)
    unfolding principal_count
    owner_counter = elim (Option-cases (lookup owner s.pending_by_principal)) [
      | inl missing ↦ absurd (omega (arith, rw missing at owner_count_pos))
      | inr (n, there_n) ↦ (
        n,
        there_n,
        rw there_n at owner_count_pos,
        omega (arith, rw there_n at (inv.key_bounded owner), inv.sized.principal_small),
      )
    ]

    owner_lowered :
        (key : String)
        → principal_count key
              (lower owner s.pending_by_principal (lookup owner s.pending_by_principal))
            + key_weight key e
          ≡ principal_count key s.pending_by_principal
    owner_lowered key =
        let (n, there_n, pos, small) = owner_counter in
        rw (owner_weight key)
          (lowered-count owner s.pending_by_principal inv.counts_distinct n there_n key pos small)

    -- The sum after the entry has lost its weight.
    total-ended :
        (w : TaskEntry → ℕ) (e'' : TaskEntry)
        → w e'' ≡ 0
        → total w (insert id e'' s.tasks) + w e ≡ total w s.tasks
    total-ended w e'' h = omega (arith, total-insert_old w id e'' e s.tasks there)

    weight_one : pending_weight e ≡ 1
    weight_one = rw done.was_pending

    weight_bytes : bytes_weight e ≡ e'.estimated_bytes
    weight_bytes = rw (done.was_pending, done.same_bytes)

    count_lowered : wrapping_sub s.pending_count 1 + 1 ≡ s.pending_count
    count_lowered = omega (
      arith,
      inv.counted,
      le-total pending_weight id e s.tasks there,
      weight_one,
      inv.count_bounded,
      inv.sized.global_small,
    )

    bytes_lowered :
        wrapping_sub s.pending_bytes e'.estimated_bytes + e'.estimated_bytes ≡ s.pending_bytes
    bytes_lowered = omega (
      arith,
      inv.weighed,
      le-total bytes_weight id e s.tasks there,
      weight_bytes,
      inv.bytes_bounded,
      inv.sized.bytes_small,
    )

    pub settle-Inv : (now : ℕ) → Inv (settle now id e' s)
    unfolding settle owner
    settle-Inv now = record {
      sized = inv.sized;
      counted = ground (arith, count_lowered, count_total);
      weighed = ground (arith, bytes_lowered, bytes_total);
      counted_by_key = λ key. omega (
        arith,
        owner_lowered key,
        inv.counted_by_key key,
        total-ended (key_weight key) e'' (rw done.now_terminal),
      );
      count_bounded = omega (arith, count_lowered, inv.count_bounded);
      key_bounded = λ key. omega (arith, owner_lowered key, inv.key_bounded key);
      bytes_bounded = omega (arith, bytes_lowered, inv.bytes_bounded);
      tasks_distinct = insert-IsDistinct id e'' s.tasks inv.tasks_distinct;
      counts_distinct =
          let (n, there_n, pos, small) = owner_counter in
          lowered-IsDistinct owner s.pending_by_principal inv.counts_distinct n there_n;
      kept =
          AllEntries-insert IsKept id e'' s.tasks inv.kept
            (record { under_id = done.same_id ∙ kept_e.under_id; ended = done.now_terminal });
    }
      where
        e'' : TaskEntry
        e'' = record e' { terminal_at = some now; notify = suc e'.notify }

        kept_e : IsKept id e
        kept_e = AllEntries-lookup IsKept id e s.tasks inv.kept there

        count_total :
            total pending_weight (insert id e'' s.tasks) + 1 ≡ total pending_weight s.tasks
        count_total =
            omega (arith, total-ended pending_weight e'' (rw done.now_terminal), weight_one)

        bytes_total :
            total bytes_weight (insert id e'' s.tasks) + e'.estimated_bytes
            ≡ total bytes_weight s.tasks
        bytes_total =
            omega (arith, total-ended bytes_weight e'' (rw done.now_terminal), weight_bytes)
