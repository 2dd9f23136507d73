-- ===== src/Lockobj/Call/Isolation.antt =====
-- The calls of a partition in kernel/core/lockobj.c reach no object of another partition.
use pok_lab.Common.{
  ℕ, ◌≤◌, ◌<◌, ◌≡◌, ◌≢◌, refl, sym, ap, ◌∙◌, ◌⊎◌, inl, inr, false, Option, none, some, ◌>>=◌, arith,
  update, update_off, Bool-cases,
}
use pok_lab.Kernel.{Config, Kernel, Now, current_part}
use pok_lab.Lockobj.{Lockobj, Lockobjs, Step}
use pok_lab.Lockobj.Call.{LockAttr, operate, is_foreign, pok_lockobj_partition_wrapper}

-- The objects that a call leaves, or those before it.
abbrev left : Lockobjs → Option (Kernel × Lockobjs × Step) → Lockobjs
left os none = os
left os (some (k, us, s)) = us

operate_elsewhere :
    (os : Lockobjs) (id i : ℕ) (o : Option (Kernel × Lockobj × Step))
    → i ≢ id
    → left os (o >>= λ r. some (r.0, update os id r.1, r.2)) i ≡ os i
operate_elsewhere os id i none other = refl
operate_elsewhere os id i (some r) other = update_off os id i r.1 other

own_id :
    (k : Kernel) (os : Lockobjs) (id i : ℕ) (attr : LockAttr)
    → is_foreign k os id attr ≡ false
    → (i < (current_part k).lockobj_index_low) ⊎ ((current_part k).lockobj_index_high ≤ i)
    → i ≢ id
unfolding is_foreign
own_id k os id i attr own out = ground (arith, own, out)

-- A call of the current partition, whatever its operation, its identifier and the kind it names,
-- leaves every object as it was whose number is outside the range of the current partition.
pub pok_lockobj_partition_wrapper_lem :
    (fuel n : ℕ) (c : Config) (w : Now) (multi : ℕ) (k k' : Kernel) (os os' : Lockobjs) (id : ℕ)
    (attr : LockAttr) (step : Step)
    → pok_lockobj_partition_wrapper fuel n c w multi k os id attr ≡ some (k', os', step)
    → (i : ℕ) → (i < (current_part k).lockobj_index_low) ⊎ ((current_part k).lockobj_index_high ≤ i)
    → os' i ≡ os i
unfolding pok_lockobj_partition_wrapper
pok_lockobj_partition_wrapper_lem fuel n c w multi k k' os os' id attr step eq i out =
    ap (λ o. left os o i) (sym eq) ∙ kept
  where
    kept : left os (pok_lockobj_partition_wrapper fuel n c w multi k os id attr) i ≡ os i
    kept = elim (Bool-cases (is_foreign k os id attr)) [
      | inl foreign ↦ rw foreign refl
      | inr own ↦ rw own (
          operate_elsewhere os id i (operate fuel n c w multi k (os id) attr.timeout attr.operation)
            (own_id k os id i attr own out))
    ]
