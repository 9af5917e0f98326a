-- ===== src/Cluster/Slot/SeqLock/Invariant.antt =====
-- What every step of a reader and the writer of senko-cluster/src/slot.rs's `SeqLockSlotTable` keeps.
use senko.Prelude.{
  ℕ, ◌+◌, ◌-◌, ◌*◌, ◌/◌, ◌%◌, ◌^◌, ◌<◌, ◌≤◌, ◌≡◌, refl, ap, ◌∙◌, Bool, ◌==◌, bit_and, u64_mod,
  arith, Bool-cases, inl, inr, ◌⊎◌, List, Option,
}
use mathlib.Core.Path.{subst}
use senko.Prelude.Bits.{bit_and_mask}
use senko.Cluster.Slot.{SlotTableSnapshot, RouteNode, KeySet}
use senko.Prelude.Maps.{Map}
use senko.Cluster.Slot.SeqLock.{
  SeqLockSlotTable, data_at, put_data, stable_index, staging_index, Reader, Writer, System, Step,
  Reach, read_step, write_step, published, counted, start_system, outside, at_entries, at_nodes,
  at_slots, at_remote, at_check, returned, idle, called, begun, copied, changed, reads, writes_on,
  calls, reads_again, start, later,
}

-- The place of the snapshot that `n` finished writes leave.
abbrev pub place : ℕ → ℕ
place n = n % 2

abbrev pub other_place : ℕ → ℕ
other_place n = 1 - n % 2

-- The sequence number after `n` writes is `2 * n`, and one more in the middle of a write; the staged
-- snapshot is a copy of the current one, and then what `f` makes of it.
abbrev pub IsWriting : SeqLockSlotTable → SlotTableSnapshot → ℕ → Writer → Type 0
IsWriting t current n idle = t.seq ≡ 2 * n
IsWriting t current n (called f) = t.seq ≡ 2 * n
IsWriting t current n (begun begin f) = (t.seq ≡ 2 * n + 1) × (begin ≡ 2 * n)
IsWriting t current n (copied begin f) =
    (t.seq ≡ 2 * n + 1) × (begin ≡ 2 * n) × (data_at t (other_place n) ≡ current)
IsWriting t current n (changed f) = (t.seq ≡ 2 * n + 1) × (data_at t (other_place n) ≡ f current)

-- The number that a reader has loaded is even and none of the future, and as long as it is the
-- table's, what the reader has cloned is current.
abbrev pub HasLoaded : ℕ → ℕ → Type 0 → Type 0
HasLoaded s1 seq IsCurrent = (s1 % 2 ≡ 0) × (s1 ≤ seq) × (s1 ≡ seq → IsCurrent)

abbrev pub IsReading : ℕ → SlotTableSnapshot → Reader → Type 0
IsReading seq c outside = Unit
IsReading seq c (at_entries s1) = HasLoaded s1 seq Unit
IsReading seq c (at_nodes s1 es) = HasLoaded s1 seq (es ≡ c.entries)
IsReading seq c (at_slots s1 es ns) = HasLoaded s1 seq ((es ≡ c.entries) × (ns ≡ c.nodes))
IsReading seq c (at_remote s1 es ns ms) =
    HasLoaded s1 seq ((es ≡ c.entries) × (ns ≡ c.nodes) × (ms ≡ c.migrating_slots))
IsReading seq c (at_check s1 x) = HasLoaded s1 seq (x ≡ c)
IsReading seq c (returned x) = Unit

pub record Inv (s : System) : Type 0 where
  pub writing : IsWriting s.table s.current s.writes s.writer
  pub reading : IsReading s.table.seq s.current s.reader
  pub stable : data_at s.table (place s.writes) ≡ s.current

stable_index_lem : (n : ℕ) → stable_index (2 * n) ≡ place n
unfolding stable_index
stable_index_lem n = bit_and_mask 1 (2 * n / 2) ∙ ap (λ m. m % 2) (omega arith)

staging_index_lem : (n : ℕ) → staging_index (2 * n) ≡ other_place n
unfolding staging_index
staging_index_lem n = rw (stable_index_lem n) (ground arith)

seq-cases :
    (t : SeqLockSlotTable) (c : SlotTableSnapshot) (n : ℕ) (w : Writer)
    → IsWriting t c n w
    → (t.seq ≡ 2 * n) ⊎ (t.seq ≡ 2 * n + 1)
seq-cases t c n idle e = inl e
seq-cases t c n (called f) e = inl e
seq-cases t c n (begun begin f) (e, b) = inr e
seq-cases t c n (copied begin f) (e, b, d) = inr e
seq-cases t c n (changed f) (e, d) = inr e

-- With an even sequence number, what it points at is current.
pub stable_lem :
    (s : System) (s1 : ℕ)
    → Inv s
    → s1 % 2 ≡ 0
    → s1 ≡ s.table.seq
    → data_at s.table (stable_index s1) ≡ s.current
stable_lem s s1 inv even same = elim (seq-cases s.table s.current s.writes s.writer inv.writing) [
  | inl e ↦
      ap (λ i. data_at s.table (stable_index i)) (same ∙ e)
      ∙ ap (data_at s.table) (stable_index_lem s.writes)
      ∙ inv.stable
  | inr e ↦ absurd (omega arith)
]

abbrev snapshot_of : List ℕ → List (Option RouteNode) → Map ℕ KeySet → Bool → SlotTableSnapshot
snapshot_of es ns ms b = record { entries = es; nodes = ns; migrating_slots = ms; proxy_remote = b }

whole :
    (es : List ℕ) (ns : List (Option RouteNode)) (ms : Map ℕ KeySet) (b : Bool)
    (c : SlotTableSnapshot)
    → es ≡ c.entries
    → ns ≡ c.nodes
    → ms ≡ c.migrating_slots
    → b ≡ c.proxy_remote
    → snapshot_of es ns ms b ≡ c
whole es ns ms b c p q r o =
    ap (λ es. snapshot_of es ns ms b) p
    ∙ ap (λ ns. snapshot_of c.entries ns ms b) q
    ∙ ap (λ ms. snapshot_of c.entries c.nodes ms b) r
    ∙ ap (snapshot_of c.entries c.nodes c.migrating_slots) o

-- A step of the reader.
IsReading-read_step :
    (s : System) (r : Reader)
    → Inv s
    → IsReading s.table.seq s.current r
    → IsReading s.table.seq s.current (read_step s.table r)
unfolding read_step
IsReading-read_step s outside inv h = elim (Bool-cases (bit_and s.table.seq 1 == 1)) [
  | inl odd ↦ rw odd tt
  | inr even ↦ rw even (ground (arith, bit_and_mask 1 s.table.seq), omega arith, λ e. tt)
]
IsReading-read_step s (at_entries s1) inv (even, past, now) =
    (even, past, λ e. ap (λ x. x.entries) (stable_lem s s1 inv even e))
IsReading-read_step s (at_nodes s1 es) inv (even, past, now) =
    (even, past, λ e. (now e, ap (λ x. x.nodes) (stable_lem s s1 inv even e)))
IsReading-read_step s (at_slots s1 es ns) inv (even, past, now) = (
  even,
  past,
  λ e. ((now e).0, (now e).1, ap (λ x. x.migrating_slots) (stable_lem s s1 inv even e)),
)
IsReading-read_step s (at_remote s1 es ns ms) inv (even, past, now) = (
  even,
  past,
  λ e.
      let (p, q, r) = now e in
      whole es ns ms (data_at s.table (stable_index s1)).proxy_remote s.current p q r
        (ap (λ x. x.proxy_remote) (stable_lem s s1 inv even e)),
)
IsReading-read_step s (at_check s1 x) inv (even, past, now) =
    elim (Bool-cases (s1 == s.table.seq)) [ inl same ↦ rw same tt | inr other ↦ rw other tt ]
IsReading-read_step s (returned x) inv h = tt

-- Once the sequence number has moved on, what a reader has cloned is refused.
IsReading-later :
    (seq seq' : ℕ) (c c' : SlotTableSnapshot) (r : Reader)
    → seq < seq'
    → IsReading seq c r
    → IsReading seq' c' r
IsReading-later seq seq' c c' outside more h = tt
IsReading-later seq seq' c c' (at_entries s1) more (even, past, now) = (even, omega arith, λ e. tt)
IsReading-later seq seq' c c' (at_nodes s1 es) more (even, past, now) =
    (even, omega arith, λ e. absurd (omega arith))
IsReading-later seq seq' c c' (at_slots s1 es ns) more (even, past, now) =
    (even, omega arith, λ e. absurd (omega arith))
IsReading-later seq seq' c c' (at_remote s1 es ns ms) more (even, past, now) =
    (even, omega arith, λ e. absurd (omega arith))
IsReading-later seq seq' c c' (at_check s1 x) more (even, past, now) =
    (even, omega arith, λ e. absurd (omega arith))
IsReading-later seq seq' c c' (returned x) more h = tt

data_at-put_other :
    (t : SeqLockSlotTable) (n : ℕ) (x : SlotTableSnapshot)
    → data_at (put_data t (other_place n) x) (place n) ≡ data_at t (place n)
data_at-put_other t n x = ground arith

data_at-put_same :
    (t : SeqLockSlotTable) (i : ℕ) (x : SlotTableSnapshot) → data_at (put_data t i x) i ≡ x
data_at-put_same t i x = ground arith

-- What the writer and the memory keep, without the record.
abbrev Kept : SeqLockSlotTable → Writer → Reader → SlotTableSnapshot → ℕ → Type 0
Kept t w r c n = IsWriting t c n w × IsReading t.seq c r × (data_at t (place n) ≡ c)

-- A step of the writer.
Kept-write_step :
    (t : SeqLockSlotTable) (w : Writer) (r : Reader) (c : SlotTableSnapshot) (n : ℕ)
    → counted w n < 2 ^ 63
    → Kept t w r c n
    → Kept (write_step t w).0 (write_step t w).1 r (published w c) (counted w n)
unfolding write_step
Kept-write_step t idle r c n few kept = kept
Kept-write_step t (called f) r c n few (e, reading, stable) =
    let moved : (t.seq + 1) % u64_mod ≡ 2 * n + 1 = omega arith in
    ((moved, e), IsReading-later t.seq ((t.seq + 1) % u64_mod) c c r (omega arith) reading, stable)
Kept-write_step t (begun begin f) r c n few ((e, b), reading, stable) =
    let to : staging_index begin ≡ other_place n = ap staging_index b ∙ staging_index_lem n in
    let from : stable_index begin ≡ place n = ap stable_index b ∙ stable_index_lem n in
    rw (to, from)
      (
        (e, b, data_at-put_same t (other_place n) (data_at t (place n)) ∙ stable),
        reading,
        data_at-put_other t n (data_at t (place n)) ∙ stable,
      )
Kept-write_step t (copied begin f) r c n few ((e, b, staged), reading, stable) =
    let to : staging_index begin ≡ other_place n = ap staging_index b ∙ staging_index_lem n in
    rw to (
      (e, data_at-put_same t (other_place n) (f (data_at t (other_place n))) ∙ ap f staged),
      reading,
      data_at-put_other t n (f (data_at t (other_place n))) ∙ stable,
    )
Kept-write_step t (changed f) r c n few ((e, staged), reading, stable) =
    let moved : (t.seq + 1) % u64_mod ≡ 2 * (n + 1) = omega arith in
    let turned : place (n + 1) ≡ other_place n = omega arith in
    (
      moved,
      IsReading-later t.seq ((t.seq + 1) % u64_mod) c (f c) r (omega arith) reading,
      ap (data_at t) turned ∙ staged,
    )

start-Inv : (initial : SlotTableSnapshot) → Inv (start_system initial)
start-Inv initial = record { writing = refl; reading = tt; stable = refl }

counted-le : (w : Writer) (n : ℕ) → n ≤ counted w n
counted-le idle n = omega arith
counted-le (called f) n = omega arith
counted-le (begun begin f) n = omega arith
counted-le (copied begin f) n = omega arith
counted-le (changed f) n = omega arith

Step-le : {s t : System} → Step s t → s.writes ≤ t.writes
Step-le reads = omega arith
Step-le {s} writes_on = counted-le s.writer s.writes
Step-le (calls f e) = omega arith
Step-le (reads_again x e) = omega arith

-- Every step keeps the invariant, as long as the sequence number has not wrapped.
pub Step-Inv : {s t : System} → Step s t → t.writes < 2 ^ 63 → Inv s → Inv t
Step-Inv {s} reads few inv = record {
  writing = inv.writing;
  reading = IsReading-read_step s s.reader inv inv.reading;
  stable = inv.stable;
}
Step-Inv {s} writes_on few inv =
    let (writing, reading, stable) =
      Kept-write_step s.table s.writer s.reader s.current s.writes few
        (inv.writing, inv.reading, inv.stable) in
    record { writing = writing; reading = reading; stable = stable }
Step-Inv {s} (calls f e) few inv = record {
  writing = subst (IsWriting s.table s.current s.writes) e inv.writing;
  reading = inv.reading;
  stable = inv.stable;
}
Step-Inv {s} (reads_again x e) few inv = record {
  writing = inv.writing;
  reading = tt;
  stable = inv.stable;
}

-- In every state that a reader and the writer reach before 2^63 writes: the sequence number is twice
-- the number of finished writes, and one more in the middle of a write; it points at the result of the
-- last finished write, and the writer changes the other snapshot only; and what a reader has cloned
-- is current as long as the sequence number is the one that it loaded.
pub Reach-Inv :
    {initial : SlotTableSnapshot} {s : System} → Reach initial s → s.writes < 2 ^ 63 → Inv s
Reach-Inv {initial} start few = start-Inv initial
Reach-Inv (later reach step) few = Step-Inv step few (Reach-Inv reach (omega (arith, Step-le step)))
