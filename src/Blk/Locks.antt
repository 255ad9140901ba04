-- ===== src/Blk/Locks.antt =====
-- driver/blk/blk_cc_mm_sync.c: the locks that the cache manager and the memory manager have the driver
-- take. A routine is the list of what it does to the device's locks, in order; each returns
-- STATUS_SUCCESS.
use htkis_hyper_disk.Base.{
  ℕ, ◌≡◌, refl, Bool, true, ltb, Option, none, some, List, [], ◌∷◌, ◌++◌, ◌&&◌, ◌==◌, if◌then◌else◌,
  ◌>>=◌,
}

-- FsRtlHeaderLock, CcFlushLock and MmModWriteLock, with their place in the order of locking
pub data Lock : Type 0 where
  header cc_flush mod_write : Lock

abbrev pub rank : Lock → ℕ
rank header = 0
rank cc_flush = 1
rank mod_write = 2

-- ExAcquireResourceSharedLite, ExAcquireResourceExclusiveLite and ExReleaseResourceLite
pub data Action : Type 0 where
  acquire_shared acquire_exclusive release : Lock → Action

-- HdBlkAcquireForCcFlush and HdBlkReleaseForCcFlush
pub acquire_for_cc_flush : List Action
acquire_for_cc_flush = acquire_shared header ∷ acquire_exclusive cc_flush ∷ []

pub release_for_cc_flush : List Action
release_for_cc_flush = release cc_flush ∷ release header ∷ []

-- HdBlkAcquireForModWrite and HdBlkReleaseForModWrite
pub acquire_for_mod_write : List Action
acquire_for_mod_write = acquire_shared header ∷ acquire_exclusive mod_write ∷ []

pub release_for_mod_write : List Action
release_for_mod_write = release mod_write ∷ release header ∷ []

-- HdBlkAcquireFileForNtCreateSection and HdBlkReleaseFileForNtCreateSection
pub acquire_file_for_section : List Action
acquire_file_for_section = acquire_exclusive header ∷ []

pub release_file_for_section : List Action
release_file_for_section = release header ∷ []

-- The locks that a thread holds, the last taken first. An acquisition is in order when its lock comes
-- after all those held, and a release when it gives back the last lock taken.
abbrev pub above : Lock → List Lock → Bool
above l [] = true
above l (h ∷ held) = ltb (rank h) (rank l) && above l held

abbrev pub act : Action → List Lock → Option (List Lock)
act (acquire_shared l) held = if above l held then some (l ∷ held) else none
act (acquire_exclusive l) held = if above l held then some (l ∷ held) else none
act (release l) [] = none
act (release l) (h ∷ held) = if rank h == rank l then some held else none

abbrev pub perform : List Action → List Lock → Option (List Lock)
perform [] held = some held
perform (a ∷ rest) held = act a held >>= perform rest

-- the three pairs of routines
pub data Section : Type 0 where
  cc_flushing mod_writing creating_section : Section

abbrev pub acquire_of : Section → List Action
acquire_of cc_flushing = acquire_for_cc_flush
acquire_of mod_writing = acquire_for_mod_write
acquire_of creating_section = acquire_file_for_section

abbrev pub release_of : Section → List Action
release_of cc_flushing = release_for_cc_flush
release_of mod_writing = release_for_mod_write
release_of creating_section = release_file_for_section

-- one pair after the other
abbrev pub sections : List Section → List Action
sections [] = []
sections (s ∷ ss) = (acquire_of s ++ release_of s) ++ sections ss

-- A thread that holds none of the locks can run any of the three pairs, one pair after the other: every
-- lock is taken in the order FsRtlHeaderLock, CcFlushLock, MmModWriteLock and given back in the reverse
-- order, and none is held at the end.
perform-sections : (ss : List Section) → perform (sections ss) [] ≡ some []
unfolding acquire_for_cc_flush release_for_cc_flush acquire_for_mod_write release_for_mod_write
    acquire_file_for_section release_file_for_section
perform-sections [] = refl
perform-sections (cc_flushing ∷ ss) = perform-sections ss
perform-sections (mod_writing ∷ ss) = perform-sections ss
perform-sections (creating_section ∷ ss) = perform-sections ss
