-- ===== src/Cache/Ranges.antt =====
-- ReadLocalRange of cache/store.go: a range of a body is the same as the slice of the whole body.
use mathlib.Core.Path.{subst}
use mathlib.Core.List.{append-nil, append_assoc}
use malt.Base.{
  ◌≡◌, refl, sym, ap, ◌∙◌, inl, inr, ℕ, ◌+◌, ◌-◌, ◌^◌, ◌≤◌, ◌<◌, arith, List, [], ◌∷◌, ◌++◌, ltb,
  length, length-append, false, Text, text_eq, nat_eq, ok, ◌>>=◌, ◌>>◌, Result-cases, Option-cases,
  ==_refl, Map, lookup, length-append,
}
use malt.Cache.Types.{pos, Bytes, Binding, Entry, Outcome, Disk, Io, Hashes, int_eq}
use malt.Cache.Disk.{binding_id}
use malt.Cache.Store.Capture.{
  drop, take, least, u64, Capture, capture_all, new_capture, wanted_length, zeros,
}
use malt.Cache.Store.Locked.{open_bounded_local_body_locked, natural, verify_local_stream, above}
use malt.Cache.Store.Bodies.{
  stream_entry, range_file, range_entry, verified_stream, read_local_range_locked,
}
use malt.Cache.Slices.{
  IsCaptured, capture_write-IsCaptured, kept, take_all, length-take, length-drop, take-least,
}

abbrev pub concat : List Bytes → Bytes
concat [] = []
concat (chunk ∷ chunks) = chunk ++ concat chunks

capture_all-IsCaptured :
    (offset wanted : ℕ) (chunks : List Bytes) (seen : Bytes) (w : Capture)
    → IsCaptured offset wanted seen w
    → offset + wanted < u64
    → length (seen ++ concat chunks) < u64
    → (next : Capture) × (capture_all w chunks ≡ ok next)
      × IsCaptured offset wanted (seen ++ concat chunks) next
unfolding capture_all
capture_all-IsCaptured offset wanted [] seen w i r s =
    (w, refl, subst (λ b. IsCaptured offset wanted b w) (sym (append-nil seen)) i)
capture_all-IsCaptured offset wanted (chunk ∷ chunks) seen w i r s =
    let (next, e, j) = capture_write-IsCaptured offset wanted seen chunk w i r (
      omega (
        arith,
        s,
        length-append seen (chunk ++ concat chunks),
        length-append chunk (concat chunks),
      )) in
    let again = append_assoc seen chunk (concat chunks) in
    rw e (
      subst
        (λ b.
          (last : Capture) × (capture_all next chunks ≡ ok last) × IsCaptured offset wanted b last)
        again
        (capture_all-IsCaptured offset wanted chunks (seen ++ chunk) next j r
          (subst (λ b. length b < u64) (sym again) s)))

-- What is wanted lies inside the body, and is what the slice has.
wanted-exact :
    (offset count size : ℕ)
    → offset < u64
    → count < u64
    → size < 2 ^ 63
    → wanted_length offset count size ≡ least count (size - offset)
unfolding wanted_length
wanted-exact offset count size ho hc hs = ground arith

IsCaptured-new : (offset wanted : ℕ) → IsCaptured offset wanted [] (new_capture offset wanted)
unfolding take drop
IsCaptured-new offset wanted = record {
  same_offset = refl;
  counted = refl;
  held = ap zeros (omega arith);
  all_copied = refl;
}

-- What an open body has been checked for.
pub opened :
    (io : Io) (id : Text) (e : Entry) (limit : ℕ) (disk : Disk) (file : Bytes)
    → open_bounded_local_body_locked io id e limit disk ≡ ok file
    → (e.size ≡ pos (length file)) × (length file < 2 ^ 63)
unfolding open_bounded_local_body_locked above
opened io id e limit disk file h = ground arith

unpadded : (b : Bytes) (n : ℕ) → n ≡ 0 → b ++ zeros n ≡ b
unfolding zeros
unpadded b n h = subst (λ k. b ++ zeros k ≡ b) (sym h) (append-nil b)

module _ (offset wanted : ℕ) (chunks : List Bytes) where
  -- The stream of a whole body, and a range that lies in it.
  captured_range :
      (file : Bytes)
      → concat chunks ≡ file
      → wanted ≤ length file - offset
      → offset + wanted < u64
      → length file < u64
      → (next : Capture) × (capture_all (new_capture offset wanted) chunks ≡ ok next)
        × (next.body ≡ take wanted (drop offset file))
        × (next.copied ≡ length next.body)
  captured_range file hf hw hr hs =
      let (next, e, i) =
        capture_all-IsCaptured offset wanted chunks [] (new_capture offset wanted)
          (IsCaptured-new offset wanted) hr (subst (λ b. length b < u64) (sym hf) hs) in
      let full : kept offset wanted (concat chunks) ≡ take wanted (drop offset file) =
        ap (kept offset wanted) hf in
      let all : length (take wanted (drop offset file)) ≡ wanted =
        length-take _ _ ∙ ap (least wanted) (length-drop offset file) ∙ ground arith in
      let body : next.body ≡ take wanted (drop offset file) =
        i.held ∙ rw full (unpadded (take wanted (drop offset file)) _ (omega (arith, all))) in
      (next, e, body, i.all_copied ∙ ap length (full ∙ sym body))

-- A slice that reaches past the end stops there.
clipped :
    (offset count : ℕ) (file : Bytes)
    → offset < u64
    → count < u64
    → length file < 2 ^ 63
    → take (wanted_length offset count (length file)) (drop offset file)
      ≡ take count (drop offset file)
clipped offset count file ho hc hs =
    rw (wanted-exact offset count (length file) ho hc hs, sym (length-drop offset file))
      (take-least count (drop offset file))

abbrev pub returned : Bytes → Entry → Outcome (Bytes × Entry)
returned body e = ok (body, e)

module _ (h : Hashes) (io : Io) (chunks : Bytes → List Bytes) (b : Binding) (offset count limit : ℕ)
    (entries : Map Entry) (disk : Disk) where
  -- After the entry was found and its body opened.
  ranged :
      (file : Bytes) (e : Entry)
      → ((body : Bytes) → concat (chunks body) ≡ body)
      → offset < u64
      → count < u64
      → length file < 2 ^ 63
      → range_file h chunks offset count (length file) file e ≡ (
          verify_local_stream h file e.binding.cid (length file)
          >> returned (take count (drop offset file)) e)
  unfolding range_file
  ranged file e hc ho hn hl =
      let wanted = wanted_length offset count (length file) in
      let exact = wanted-exact offset count (length file) ho hn hl in
      let (next, made, body, all) =
        captured_range offset wanted (chunks (take (length file) file)) file
          (hc _ ∙ take_all (length file) file (omega arith)) (ground (arith, exact))
          (ground (arith, exact)) (omega arith) in
      let same = body ∙ clipped offset count file ho hn hl in
      let fits : ltb (2 ^ 63 - 1) wanted ≡ false = ground (arith, exact) in
      rw (fits, made, all, ==_refl, same)
        (elim (Result-cases (verify_local_stream h file e.binding.cid (length file))) [
          | inl (_, r) ↦ rw r refl
          | inr (_, r) ↦ rw r refl
        ])

  after_open :
      ((body : Bytes) → concat (chunks body) ≡ body)
      → offset < u64
      → count < u64
      → (file : Bytes) (e : Entry)
      → open_bounded_local_body_locked io (binding_id h b) e limit disk ≡ ok file
      → range_entry h io chunks b offset count limit e disk ≡ (
          stream_entry h io b limit e disk >>= λ (file, e).
          returned (take count (drop offset file)) e)
  unfolding range_entry stream_entry natural
  after_open hc ho hn file e r =
      let (size, small) = opened io (binding_id h b) e limit disk file r in
      let measured : length file ≡ natural e.size = sym (ap natural size) in
      rw r (
        subst
          (λ n. range_file h chunks offset count n file e ≡ (
            verify_local_stream h file e.binding.cid n
            >> returned (take count (drop offset file)) e))
          measured (ranged file e hc ho hn small)
        ∙ elim (Result-cases (verify_local_stream h file e.binding.cid (natural e.size))) [
          | inl (_, t) ↦ rw t refl
          | inr (_, t) ↦ rw t refl
        ])

  after_found :
      (e : Entry)
      → ((body : Bytes) → concat (chunks body) ≡ body)
      → offset < u64
      → count < u64
      → range_entry h io chunks b offset count limit e disk ≡ (
          stream_entry h io b limit e disk >>= λ (file, e).
          returned (take count (drop offset file)) e)
  after_found e hc ho hn =
      elim (Result-cases (open_bounded_local_body_locked io (binding_id h b) e limit disk)) [
        | inr (_, r) ↦ (unfold range_entry stream_entry in rw r refl)
        | inl (file, r) ↦ after_open hc ho hn file e r
      ]

  -- ReadLocalRange gives what a verification of the whole body gives, with the slice of the body
  -- that starts at the offset and has up to the requested length in place of the body: for every
  -- offset and length below 2^64, also where their sum wraps, for every way in which the reads
  -- deliver the stream in chunks, and without a slice out of bounds.
  pub read_local_range_locked-verified_stream :
      ((body : Bytes) → concat (chunks body) ≡ body)
      → offset < u64
      → count < u64
      → read_local_range_locked h io chunks b offset count limit entries disk ≡ (
          verified_stream h io b limit entries disk >>= λ (file, e).
          returned (take count (drop offset file)) e)
  unfolding read_local_range_locked verified_stream
  read_local_range_locked-verified_stream hc ho hn =
      elim (Option-cases (lookup (binding_id h b) entries)) [
        | inl f ↦ rw f refl
        | inr (e, f) ↦ rw f (after_found e hc ho hn)
      ]
