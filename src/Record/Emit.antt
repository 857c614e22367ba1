-- ===== src/Record/Emit.antt =====
-- What one access of mem-record-seqlock.c adds to the logs, and what it leaves in `g_last`.
use mem_order.Base.{
  ℕ, ◌+◌, ◌==◌, if◌then◌else◌, ◌≡◌, List, [], ◌∷◌, ◌++◌, pos, minus_one, is_neg, arith, append-nil,
}
use mem_order.Mem.{WaitMemop, WaitVersion}
use mem_order.Trace.{rd, wr, Access}
use mem_order.Record.{LastObjinfo, Recorder, note_access}

abbrev pub version_entry : ℕ → ℕ → WaitVersion
version_entry memop version = record { memop = pos memop; version = pos version }

abbrev pub memop_entry : ℕ → LastObjinfo → WaitMemop
memop_entry objid l = record { objid = pos objid; version = pos l.version; memop = l.memop }

-- The entry for a version that has changed since the thread's last access to the object.
unfoldable pub version_entries : Access → Recorder → List WaitVersion
version_entries a r =
    if (r.last a.objid).version == a.version then [] else (version_entry r.memop a.version ∷ [])

-- The entry for a last read, if there was one.
unfoldable pub read_entry : ℕ → LastObjinfo → List WaitMemop
read_entry objid l = if is_neg l.memop then [] else (memop_entry objid l ∷ [])

unfoldable pub memop_entries : Access → Recorder → List WaitMemop
unfolding read_entry
memop_entries a r =
    let l = r.last a.objid in if l.version == a.version then [] else read_entry a.objid l

-- The entry of `g_last` for the object of the access, afterwards.
unfoldable pub last_after : Access → Recorder → LastObjinfo
last_after a r = elim (a.op) [
  | rd ↦ record { version = a.version; memop = pos r.memop }
  | wr ↦ record { version = (r.last a.objid).version; memop = minus_one }
]

module _ (a : Access) (r : Recorder) where
  pub memop-note_access : (note_access a r).memop ≡ r.memop + 1
  unfolding note_access
  memop-note_access = ground arith

  pub versions-note_access : (note_access a r).versions ≡ r.versions ++ version_entries a r
  unfolding note_access version_entries
  versions-note_access = ground (arith, append-nil r.versions)

  pub memops-note_access : (note_access a r).memops ≡ r.memops ++ memop_entries a r
  unfolding note_access memop_entries
  memops-note_access = ground (arith, append-nil r.memops)

  pub last-note_access :
      (o : ℕ) → (note_access a r).last o ≡ (if a.objid == o then last_after a r else r.last o)
  unfolding note_access last_after
  last-note_access o = ground arith
