-- ===== src/Cache/Slices.antt =====
-- What a capture keeps of a stream.
use mathlib.Core.List.{append-nil, append_assoc}
use malt.Base.{
  ◌≡◌, refl, sym, ap, ◌∙◌, inl, inr, ℕ, zero, suc, ◌+◌, ◌-◌, ◌≤◌, ◌<◌, arith, Bool, true, ◌||◌, [],
  ◌∷◌, ◌++◌, leb, nat_eq, ◌==◌, length, length-append, ok, Bool-cases,
}
use malt.Cache.Types.{Bytes}
use malt.Cache.Store.Capture.{
  drop, take, overwrite, least, most, u64, add64, sub64, Capture, copy_range, capture_write, zeros,
}

pub take-zero : (b : Bytes) → take 0 b ≡ []
unfolding take
take-zero [] = refl
take-zero (x ∷ b) = ground arith

pub drop-zero : (b : Bytes) → drop 0 b ≡ b
unfolding drop
drop-zero [] = refl
drop-zero (x ∷ b) = ground arith

minus_zero : (n : ℕ) → n ≡ n - 0
minus_zero n = omega arith

pub length-take : (n : ℕ) (b : Bytes) → length (take n b) ≡ least n (length b)
unfolding take
length-take n [] = ground arith
length-take n (x ∷ b) = ground (arith, length-take (n - 1) b)

pub length-drop : (n : ℕ) (b : Bytes) → length (drop n b) ≡ length b - n
unfolding drop
length-drop n [] = ground arith
length-drop n (x ∷ b) = ground (arith, length-drop (n - 1) b)

pub take_all : (n : ℕ) (b : Bytes) → length b ≤ n → take n b ≡ b
unfolding take
take_all n [] h = refl
take_all n (x ∷ b) h = ground (arith, take_all (n - 1) b)

pub drop_all : (n : ℕ) (b : Bytes) → length b ≤ n → drop n b ≡ []
unfolding drop
drop_all n [] h = refl
drop_all n (x ∷ b) h = ground (arith, drop_all (n - 1) b)

pub take-least : (n : ℕ) (b : Bytes) → take (least n (length b)) b ≡ take n b
take-least n b = elim (Bool-cases (leb n (length b))) [
  | inl e ↦ rw e refl
  | inr e ↦ rw e (take_all _ b (omega arith) ∙ sym (take_all n b (ground (arith, e))))
]

take-append : (n : ℕ) (p c : Bytes) → take n (p ++ c) ≡ take n p ++ take (n - length p) c
unfolding take
take-append n [] c = ap (λ k. take k c) (minus_zero n)
take-append n (x ∷ p) c = elim (Bool-cases (n == 0)) [
  | inl e ↦ rw e (sym (ap (λ k. take k c) (ground (arith, e)) ∙ take-zero c))
  | inr e ↦ rw e (
      ap (λ r. x ∷ r)
        (take-append (n - 1) p c ∙ ap (λ k. take (n - 1) p ++ take k c) (ground (arith, e))))
]

drop-append : (n : ℕ) (p c : Bytes) → drop n (p ++ c) ≡ drop n p ++ drop (n - length p) c
unfolding drop
drop-append n [] c = ap (λ k. drop k c) (minus_zero n)
drop-append n (x ∷ p) c = elim (Bool-cases (n == 0)) [
  | inl e ↦ rw e (ap (λ r. x ∷ p ++ r) (sym (ap (λ k. drop k c) (ground (arith, e)) ∙ drop-zero c)))
  | inr e ↦
      rw e (drop-append (n - 1) p c ∙ ap (λ k. drop (n - 1) p ++ drop k c) (ground (arith, e)))
]

overwrite-zeros :
    (n : ℕ) (src : Bytes) → length src ≤ n → overwrite (zeros n) src ≡ src ++ zeros (n - length src)
unfolding overwrite zeros
overwrite-zeros zero [] h = refl
overwrite-zeros zero (b ∷ src) h = absurd (omega arith)
overwrite-zeros (suc n) [] h = ap zeros (minus_zero (suc n))
overwrite-zeros (suc n) (b ∷ src) h =
    ap (λ r. b ∷ r) (overwrite-zeros n src (omega arith) ∙ ap (λ k. src ++ zeros k) (omega arith))

length-zeros : (n : ℕ) → length (zeros n) ≡ n
unfolding zeros
length-zeros zero = refl
length-zeros (suc n) = omega (arith, length-zeros n)

take-length : (p c : Bytes) → take (length p) (p ++ c) ≡ p
take-length p c =
    rw (take-append, take_all (length p) p (omega arith))
      (ap (λ r. p ++ r) (ap (λ k. take k c) (omega arith) ∙ take-zero c) ∙ append-nil p)

drop-length : (p c : Bytes) → drop (length p) (p ++ c) ≡ c
drop-length p c =
    rw (drop-append, drop_all (length p) p (omega arith))
      (ap (λ k. drop k c) (omega arith) ∙ drop-zero c)

module _ (offset wanted : ℕ) where
  -- The part of what was seen that is asked for.
  abbrev pub kept : Bytes → Bytes
  kept seen = take wanted (drop offset seen)

  -- What a chunk adds to it.
  abbrev added : Bytes → Bytes → Bytes
  added seen chunk = take (wanted - (length seen - offset)) (drop (offset - length seen) chunk)

  length-kept : (seen : Bytes) → length (kept seen) ≡ least wanted (length seen - offset)
  length-kept seen = rw (length-take, length-drop) refl

  kept-append : (seen chunk : Bytes) → kept (seen ++ chunk) ≡ kept seen ++ added seen chunk
  kept-append seen chunk = rw (drop-append, take-append, length-drop) refl

  -- A capture that saw these bytes.
  pub record IsCaptured (seen : Bytes) (w : Capture) : Type 0 where
    pub same_offset : w.offset ≡ offset
    pub counted : w.seen ≡ length seen
    pub held : w.body ≡ kept seen ++ zeros (wanted - length (kept seen))
    pub all_copied : w.copied ≡ length (kept seen)

  length-body : (seen : Bytes) (w : Capture) → IsCaptured seen w → length w.body ≡ wanted
  length-body seen w i = rw (i.held, length-append, length-zeros, length-kept) (ground arith)

  module _ (seen chunk : Bytes) (w : Capture) (i : IsCaptured seen w)
      (in_range : offset + wanted < u64) (small : length seen + length chunk < u64) where
    -- A chunk outside the range.
    skipped :
        (end : ℕ)
        → end ≡ length seen + length chunk
        → added seen chunk ≡ []
        → IsCaptured (seen ++ chunk) (record w { seen = end })
    skipped end he nothing =
        let same : kept (seen ++ chunk) ≡ kept seen =
          kept-append seen chunk ∙ ap (λ r. kept seen ++ r) nothing ∙ append-nil (kept seen) in
        record {
          same_offset = i.same_offset;
          counted = he ∙ sym (length-append seen chunk);
          held = rw same i.held;
          all_copied = rw same i.all_copied;
        }

    length-added :
        length (added seen chunk)
        ≡ least (wanted - (length seen - offset)) (length chunk - (offset - length seen))
    length-added = rw (length-take, length-drop) refl

    before : (onto : ℕ) → onto ≡ length (kept seen) → take onto w.body ≡ kept seen
    before onto h = rw (h, i.held) (take-length (kept seen) _)

    behind :
        (onto : ℕ)
        → onto ≡ length (kept seen)
        → drop onto w.body ≡ zeros (wanted - length (kept seen))
    behind onto h = rw (h, i.held) (drop-length (kept seen) _)

    room : length (added seen chunk) ≤ wanted - length (kept seen)
    room = rw (length-added, length-kept) (ground arith)

    -- The body after the part that is asked for was put behind what is there.
    pasted :
        (onto : ℕ)
        → onto ≡ length (kept seen)
        → take onto w.body ++ overwrite (drop onto w.body) (added seen chunk)
          ≡ kept (seen ++ chunk) ++ zeros (wanted - length (kept (seen ++ chunk)))
    pasted onto h =
        rw
          (
            before onto h,
            behind onto h,
            overwrite-zeros _ (added seen chunk) room,
            kept-append,
            length-append,
          )
          (sym (
            append_assoc (kept seen) (added seen chunk) _
            ∙ ap (λ k. kept seen ++ (added seen chunk ++ zeros k)) (omega arith)))

    source :
        (first last : ℕ)
        → first ≡ offset - length seen
        → last - first
          ≡ least (wanted - (length seen - offset)) (length chunk - (offset - length seen))
        → take (last - first) (drop first chunk) ≡ added seen chunk
    source first last hf hs =
        let far = drop (offset - length seen) chunk in
        ap (λ k. take (last - first) (drop k chunk)) hf
        ∙ ap (λ k. take k far)
            (hs ∙ ap (λ k. least (wanted - (length seen - offset)) k) (sym (length-drop _ chunk)))
        ∙ take-least _ far

    counted_on :
        (onto : ℕ)
        → onto ≡ length (kept seen)
        → w.copied + least (length (drop onto w.body)) (length (added seen chunk))
          ≡ length (kept (seen ++ chunk))
    counted_on onto h =
        rw (behind onto h, length-zeros, kept-append, length-append, i.all_copied)
          (ground (arith, room))

    -- A chunk of which a part is asked for.
    copied :
        (end first last onto : ℕ)
        → end ≡ length seen + length chunk
        → first ≡ offset - length seen
        → first ≤ last
        → last ≤ length chunk
        → last - first
          ≡ least (wanted - (length seen - offset)) (length chunk - (offset - length seen))
        → onto ≡ length (kept seen)
        → (next : Capture) × (copy_range (record w { seen = end }) chunk first last onto ≡ ok next)
          × IsCaptured (seen ++ chunk) next
    unfolding copy_range
    copied end first last onto he hf ho hl hs hd = (
      record w {
        seen = end;
        body = take onto w.body ++ overwrite (drop onto w.body) (added seen chunk);
        copied = w.copied + least (length (drop onto w.body)) (length (added seen chunk));
      },
      rw (source first last hf hs) (ground (arith, length-body seen w i, length-kept seen)),
      record {
        same_offset = i.same_offset;
        counted = he ∙ sym (length-append seen chunk);
        held = pasted onto hd;
        all_copied = counted_on onto hd;
      },
    )

    end : ℕ
    end = add64 w.seen (length chunk)

    end_exact : end ≡ length seen + length chunk
    unfolding end
    end_exact = omega (arith, i.counted, small)

    outside : Bool
    outside = leb end w.offset || leb (add64 w.offset (length w.body)) w.seen

    empty_list : (b : Bytes) → length b ≡ 0 → b ≡ []
    empty_list [] h = refl
    empty_list (x ∷ b) h = absurd (omega arith)

    outside_adds_nothing : outside ≡ true → added seen chunk ≡ []
    unfolding outside end
    outside_adds_nothing e =
        empty_list _ (ground (arith, length-added, i.counted, i.same_offset, length-body seen w i))

    pub capture_write-IsCaptured :
        (next : Capture) × (capture_write w chunk ≡ ok next) × IsCaptured (seen ++ chunk) next
    unfolding capture_write outside end
    capture_write-IsCaptured =
        let start = w.seen in
        let last = least end (add64 w.offset (length w.body)) in
        elim (Bool-cases outside) [
          | inl e ↦
              (record w { seen = end }, rw e refl, skipped end end_exact (outside_adds_nothing e))
          | inr e ↦ rw e (
              copied end (sub64 (most start w.offset) start) (sub64 last start)
                (sub64 (most start w.offset) w.offset) end_exact
                (ground (
                  arith,
                  e,
                  i.counted,
                  i.same_offset,
                  length-body seen w i,
                  length-kept seen,
                  in_range,
                  small,
                ))
                (ground (
                  arith,
                  e,
                  i.counted,
                  i.same_offset,
                  length-body seen w i,
                  length-kept seen,
                  in_range,
                  small,
                ))
                (ground (
                  arith,
                  e,
                  i.counted,
                  i.same_offset,
                  length-body seen w i,
                  length-kept seen,
                  in_range,
                  small,
                ))
                (ground (
                  arith,
                  e,
                  i.counted,
                  i.same_offset,
                  length-body seen w i,
                  length-kept seen,
                  in_range,
                  small,
                ))
                (ground (
                  arith,
                  e,
                  i.counted,
                  i.same_offset,
                  length-body seen w i,
                  length-kept seen,
                  in_range,
                  small,
                )))
        ]
