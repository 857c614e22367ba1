-- ===== src/Trace.antt =====
-- The order of atomic accesses that the recorder observes: every `mem_read` and `mem_write` of
-- mem-record-*.c reads an object's version and accesses its memory at one point, and a write then
-- raises the version by 2. A trace lists these points in the order in which they happen.
pub mod Order
pub mod Growing
pub mod Append
pub mod Prefix
use mem_order.Base.{
  ℕ, ◌+◌, ◌==◌, ◌≡◌, refl, ◌⊎◌, inl, inr, if◌then◌else◌, Bool, true, false, List, [], ◌∷◌, update,
}

pub data Op : Type 0 where
  rd : Op
  wr : Op

pub Op-cases : (op : Op) → (op ≡ rd) ⊎ (op ≡ wr)
Op-cases rd = inl refl
Op-cases wr = inr refl

abbrev pub is_write : Op → Bool
is_write rd = false
is_write wr = true

-- One call of `mem_read` or `mem_write`, its address taken through `calc_objid`.
pub record Event : Type 0 where
  pub tid : ℕ
  pub op : Op
  pub objid : ℕ

-- The same call with the version that it reads.
pub record Access : Type 0 where
  pub op : Op
  pub objid : ℕ
  pub version : ℕ

-- The object's version after the access.
abbrev pub next_version : Op → ℕ → ℕ
next_version rd v = v
next_version wr v = v + 2

abbrev pub advance : (ℕ → ℕ) → Event → ℕ → ℕ
advance ver e = update ver e.objid (next_version e.op (ver e.objid))

-- The accesses of thread `t`, in program order, with the versions that they read.
unfoldable pub view : ℕ → (ℕ → ℕ) → List Event → List Access
view t ver [] = []
view t ver (e ∷ es) =
    let rest = view t (advance ver e) es in
    if e.tid == t then record { op = e.op; objid = e.objid; version = ver e.objid } ∷ rest else rest

abbrev pub access : Op → ℕ → ℕ → Access
access op objid version = record { op = op; objid = objid; version = version }
