-- ===== src/Proto/Iter/Frames.antt =====
-- What the iterator of senko-proto/src/frame.rs yields from written frames.
use senko.Prelude.{
  ℕ, suc, ◌+◌, ◌≡◌, refl, sym, ap, ◌∙◌, List, [], ◌∷◌, ◌++◌, true, false, Option, some, ◌==◌,
  length, length-append, drop-length, arith,
}
use senko.Prelude.Int.{ℤ}
use senko.Prelude.Search.{FindsFirst}
use mathlib.Core.List.{append_assoc}
use senko.Proto.Frame.{AggregateKind, Aggregate, resp, Frame}
use senko.Proto.Parser.{parse}
use senko.Proto.Reading.{complete}
use senko.Proto.Serializer.{write_frame}
use senko.Proto.Serializer.Length.{WritesDecimal}
use senko.Proto.Serializer.Roundtrip.{IsWritable, parse_frame-write_frame}
use senko.Proto.Iter.{FrameIter, iter, next, item, cons_item, prepend_frame, collect}

module _ {F : Type 0} (memchr : ℕ → List ℕ → Option ℕ) (parse_f64 : List ℕ → Option F)
    (itoa : ℤ → List ℕ) (ryu : F → List ℕ) where
  abbrev pub write_all : List (Frame F) → List ℕ
  write_all [] = []
  write_all (f ∷ frames) = write_frame itoa ryu f ++ write_all frames

  abbrev pub AreWritable : List (Frame F) → Type 0
  AreWritable [] = Unit
  AreWritable (f ∷ frames) = IsWritable parse_f64 ryu f × AreWritable frames

  abbrev resp_aggregate : AggregateKind → ℕ → List ℕ → Aggregate
  resp_aggregate kind len bytes = record { kind = kind; len = len; bytes = bytes; encoding = resp }

  abbrev iter_at : AggregateKind → ℕ → List ℕ → List ℕ → ℕ → FrameIter
  iter_at kind len before after emitted = record {
    aggregate = resp_aggregate kind len (before ++ after);
    consumed = length before;
    emitted = emitted;
  }

  module _ (first : FindsFirst memchr) (writes : WritesDecimal itoa) where
    parse-write_frame :
        (f : Frame F) (rest : List ℕ)
        → IsWritable parse_f64 ryu f
        → parse memchr parse_f64 (write_frame itoa ryu f ++ rest)
          ≡ complete f (length (write_frame itoa ryu f))
    unfolding parse
    parse-write_frame f rest h =
        parse_frame-write_frame memchr parse_f64 itoa first writes ryu
          (length (write_frame itoa ryu f ++ rest)) true f rest h

    next_lem :
        (f : Frame F) (kind : AggregateKind) (len emitted : ℕ) (before more : List ℕ)
        → (emitted == len) ≡ false
        → IsWritable parse_f64 ryu f
        → next memchr parse_f64 (iter_at kind len before (write_frame itoa ryu f ++ more) emitted)
          ≡ item f (iter_at kind len (before ++ write_frame itoa ryu f) more (emitted + 1))
    unfolding next
    next_lem f kind len emitted before more going w =
        let g = write_frame itoa ryu f in
        let it = iter_at kind len before (g ++ more) emitted in
        rw (going, drop-length before (g ++ more), parse-write_frame f more w)
          (ap (λ n. item f (record it { consumed = n; emitted = emitted + 1 }))
              (sym (length-append before g))
            ∙ ap
                (λ bytes. item f (record {
                  aggregate = resp_aggregate kind len bytes;
                  consumed = length (before ++ g);
                  emitted = emitted + 1;
                }))
                (sym (append_assoc before g more)))

    collect_lem :
        (frames : List (Frame F)) (kind : AggregateKind) (len emitted : ℕ) (before rest : List ℕ)
        → emitted + length frames ≡ len
        → AreWritable frames
        → collect memchr parse_f64
            (length frames)
            (iter_at kind len before (write_all frames ++ rest) emitted)
          ≡ some frames
    unfolding collect next
    collect_lem [] kind len emitted before rest all writable =
        let at_end : (emitted == len) ≡ true = ground arith in rw at_end refl
    collect_lem (f ∷ frames) kind len emitted before rest all (w, writable) =
        let g = write_frame itoa ryu f in
        let more = write_all frames ++ rest in
        ap
          (λ xs.
            collect memchr parse_f64 (suc (length frames)) (iter_at kind len before xs emitted))
          (append_assoc g (write_all frames) rest)
        ∙ ap (cons_item memchr parse_f64 (collect memchr parse_f64 (length frames)))
            (next_lem f kind len emitted before more (ground arith) w)
        ∙ ap (prepend_frame f)
            (collect_lem frames kind len (emitted + 1) (before ++ g) rest (omega arith) writable)

    -- An aggregate of any kind whose data begins with `len` written scalar frames, none of them an
    -- aggregate itself and each meeting `IsWritable` (its line holds no CR, its integer is an `i64`,
    -- its body is shorter than 2 ^ 63, a verbatim format has three bytes, a double is read back from
    -- what `ryu` writes), yields those frames, and is then finished, whatever the data holds after
    -- them; so also a map, whose `len` counts pairs, yields `len` frames and no more. `memchr` finds
    -- the first occurrence and `itoa` writes decimal numbers.
    pub collect-write_all :
        (kind : AggregateKind) (frames : List (Frame F)) (rest : List ℕ)
        → AreWritable frames
        → collect memchr parse_f64 (length frames) (
            iter (record {
              kind = kind;
              len = length frames;
              bytes = write_all frames ++ rest;
              encoding = resp;
            }))
          ≡ some frames
    collect-write_all kind frames rest writable =
        collect_lem frames kind (length frames) 0 [] rest (omega arith) writable
