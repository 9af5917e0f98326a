-- ===== src/Cluster/Slot/SeqLock/Reads.antt =====
-- What a reader of senko-cluster/src/slot.rs's `SeqLockSlotTable` gets.
use senko.Prelude.{
  ℕ, ◌+◌, ◌*◌, ◌%◌, ◌^◌, ◌<◌, ◌≡◌, refl, sym, ap, ◌∙◌, true, false, ◌==◌, bit_and, arith,
  Bool-cases, inl, inr,
}
use mathlib.Core.Path.{subst}
use senko.Cluster.Slot.{SlotTableSnapshot}
use senko.Cluster.Slot.SeqLock.{
  SeqLockSlotTable, System, Reach, Reader, Writer, read_step, write_step, data_at, stable_index,
  outside, at_check, returned, idle, called, later, writes_on, calls,
}
use senko.Cluster.Slot.SeqLock.Invariant.{Reach-Inv, IsReading, IsWriting, stable_lem}
use senko.Prelude.Bits.{bit_and_mask}

-- A snapshot that a reader returns is the current one at the reader's second load: the result of the
-- last write that is finished, also when writes were made while the reader cloned. Fewer than 2^63
-- writes have been made.
pub read_step-current :
    (initial : SlotTableSnapshot) (s : System) (s1 : ℕ) (cloned snapshot : SlotTableSnapshot)
    → Reach initial s
    → s.writes < 2 ^ 63
    → s.reader ≡ at_check s1 cloned
    → read_step s.table s.reader ≡ returned snapshot
    → snapshot ≡ s.current
unfolding read_step
read_step-current initial s s1 cloned snapshot reach few here done =
    let inv = Reach-Inv reach few in
    let (even, past, now) = subst (IsReading s.table.seq s.current) here inv.reading in
    let here_done : read_step s.table (at_check s1 cloned) ≡ returned snapshot =
      subst (λ r. read_step s.table r ≡ returned snapshot) here done in
    elim (Bool-cases (s1 == s.table.seq)) [
      | inl same ↦
          let got : returned cloned ≡ returned snapshot = rw same at here_done in
          let cloned_lem : cloned ≡ snapshot = cc in sym cloned_lem ∙ now (ground arith)
      | inr other ↦ let retried : outside ≡ returned snapshot = rw other at here_done in absurd cc
    ]

-- Six steps of a reader.
abbrev pub read_alone : SeqLockSlotTable → Reader
read_alone t =
    read_step t (read_step t (read_step t (read_step t (read_step t (read_step t outside)))))

-- The writer's five steps, from a call on.
abbrev pub WriterState : Type 0
WriterState = SeqLockSlotTable × Writer

abbrev pub write_on : WriterState → WriterState
write_on (t, w) = write_step t w

abbrev pub write_alone : SeqLockSlotTable → (SlotTableSnapshot → SlotTableSnapshot) → WriterState
write_alone t f = write_on (write_on (write_on (write_on (t, called f))))

read_alone_lem :
    (t : SeqLockSlotTable) (c : SlotTableSnapshot)
    → t.seq % 2 ≡ 0
    → data_at t (stable_index t.seq) ≡ c
    → read_alone t ≡ returned c
unfolding read_step
read_alone_lem t c even same =
    let odd : (bit_and t.seq 1 == 1) ≡ false = ground (arith, bit_and_mask 1 t.seq) in
    let again : (t.seq == t.seq) ≡ true = ground arith in rw (odd, again) (ap returned same)

-- A read that no write interrupts returns the current snapshot.
read_alone-current :
    (initial : SlotTableSnapshot) (s : System)
    → Reach initial s
    → s.writes < 2 ^ 63
    → s.writer ≡ idle
    → read_alone s.table ≡ returned s.current
read_alone-current initial s reach few here =
    let inv = Reach-Inv reach few in
    let seq : s.table.seq ≡ 2 * s.writes =
      subst (IsWriting s.table s.current s.writes) here inv.writing in
    let even : s.table.seq % 2 ≡ 0 = omega arith in
    read_alone_lem s.table s.current even (stable_lem s s.table.seq inv even refl)

-- In every state in which no write is under way, a write that runs to its end and then a read that
-- no other write interrupts returns, after one turn of its loop, what `f` makes of the snapshot that
-- was current. Fewer than 2^63 - 1 writes have been made.
pub read_alone-write_alone :
    (initial : SlotTableSnapshot) (s : System) (f : SlotTableSnapshot → SlotTableSnapshot)
    → Reach initial s
    → s.writes + 1 < 2 ^ 63
    → s.writer ≡ idle
    → read_alone (write_alone s.table f).0 ≡ returned (f s.current)
unfolding write_step
read_alone-write_alone initial s f reach few here =
    read_alone-current initial _
      (later (later (later (later (later reach (calls f here)) writes_on) writes_on) writes_on)
        writes_on)
      few refl
