-- ===== src/WdmDisk/MountManager.antt =====
-- driver/blk/wdm_disk_driver.c: HdBlkNotifyMountManager, by the resources of the kernel that it takes
-- and gives back.
use htkis_hyper_disk.Base.{
  ℕ, zero, suc, ◌≡◌, refl, Bool, true, false, not, List, [], ◌∷◌, if◌then◌else◌, Bool-cases, inl,
  inr,
}
use htkis_hyper_disk.Nt.{Status, pending, insufficient_resources, nt_success}

-- IoGetDeviceObjectPointer's reference to the file object and ObDereferenceObject, ExAllocatePoolWithTag
-- and ExFreePoolWithTag, and IoCallDriver with the wait for its event
pub data Step : Type 0 where
  reference_file dereference_file allocate_name free_name call_driver wait : Step

-- `status == STATUS_PENDING`
abbrev pub is_pending : Status → Bool
is_pending pending = true
is_pending _ = false

-- IoCallDriver and what follows: the steps and the status, given the driver's status and the status
-- block's
abbrev pub called : Status → Status → List Step × Status
called answered final =
    if is_pending answered
    then (call_driver ∷ wait ∷ free_name ∷ dereference_file ∷ [], final)
    else (call_driver ∷ free_name ∷ dereference_file ∷ [], answered)

-- its part after IoGetDeviceObjectPointer has succeeded
abbrev pub with_file : Bool → Bool → Status → Status → List Step × Status
with_file allocated built answered final =
    let sent = called answered final in
    if not allocated
    then (reference_file ∷ dereference_file ∷ [], insufficient_resources)
    else (if not built
        then (
          reference_file ∷ allocate_name ∷ free_name ∷ dereference_file ∷ [],
          insufficient_resources,
        )
        else (reference_file ∷ allocate_name ∷ sent.0, sent.1))

-- HdBlkNotifyMountManager, given the status of IoGetDeviceObjectPointer, whether the name can be
-- allocated and the request built, and what the driver answers
pub notify_mount_manager : Status → Bool → Bool → Status → Status → List Step × Status
notify_mount_manager pointer allocated built answered final =
    if not (nt_success pointer) then ([], pointer) else with_file allocated built answered final

-- what is held after some steps: references to the file object, and names; none for a release of
-- something that is not held
abbrev pub held : List Step → ℕ × ℕ → Bool
held [] (zero, zero) = true
held [] _ = false
held (reference_file ∷ ss) (files, names) = held ss (suc files, names)
held (dereference_file ∷ ss) (zero, names) = false
held (dereference_file ∷ ss) (suc files, names) = held ss (files, names)
held (allocate_name ∷ ss) (files, names) = held ss (files, suc names)
held (free_name ∷ ss) (files, zero) = false
held (free_name ∷ ss) (files, suc names) = held ss (files, names)
held (call_driver ∷ ss) (files, names) = held ss (files, names)
held (wait ∷ ss) (files, names) = held ss (files, names)

called-held : (answered final : Status) → held (called answered final).0 (1, 1) ≡ true
called-held answered final = elim (Bool-cases (is_pending answered)) [
  | inl waits ↦ simp waits refl
  | inr done ↦ simp done refl
]

-- Whatever the kernel answers, HdBlkNotifyMountManager gives back the file object's reference and the
-- name's memory exactly when it took them, and nothing that it does not hold.
notify_mount_manager-held :
    (pointer : Status) (allocated built : Bool) (answered final : Status)
    → held (notify_mount_manager pointer allocated built answered final).0 (0, 0) ≡ true
unfolding notify_mount_manager
notify_mount_manager-held pointer allocated built answered final =
    elim (Bool-cases (nt_success pointer)) [
      | inr missing ↦ simp missing refl
      | inl found ↦ simp found (with_pointer allocated built)
    ]
  where
    with_pointer :
        (allocated built : Bool) → held (with_file allocated built answered final).0 (0, 0) ≡ true
    with_pointer false built = refl
    with_pointer true false = refl
    with_pointer true true = called-held answered final
