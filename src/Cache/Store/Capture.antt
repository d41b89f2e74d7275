-- ===== src/Cache/Store/Capture.antt =====
-- rangeCapture of cache/store.go: what is kept of a stream that is written to it chunk by chunk.
use malt.Base.{
  ℕ, zero, suc, ◌+◌, ◌-◌, ◌%◌, ◌^◌, not, ◌&&◌, ◌||◌, List, [], ◌∷◌, ◌++◌, ltb, leb, length, nat_eq,
  ◌==◌, ok, ◌>>=◌, ◌>>◌, refuse_if, if◌then◌else◌,
}
use malt.Cache.Types.{Bytes, Outcome, capture_panic}

-- b[n:], for n up to len(b)
unfoldable pub drop : ℕ → Bytes → Bytes
drop n [] = []
drop n (b ∷ bs) = if n == 0 then b ∷ bs else drop (n - 1) bs

-- b[:n], for n up to len(b)
unfoldable pub take : ℕ → Bytes → Bytes
take n [] = []
take n (b ∷ bs) = let rest = take (n - 1) bs in if n == 0 then [] else b ∷ rest

-- copy(dst, src), onto the start
unfoldable pub overwrite : Bytes → Bytes → Bytes
overwrite [] src = []
overwrite (d ∷ ds) [] = d ∷ ds
overwrite (d ∷ ds) (b ∷ bs) = b ∷ overwrite ds bs

abbrev pub least : ℕ → ℕ → ℕ
least a b = if leb a b then a else b

abbrev pub most : ℕ → ℕ → ℕ
most a b = if leb a b then b else a

abbrev pub u64 : ℕ
u64 = 2 ^ 64

-- Addition and subtraction of uint64.
abbrev pub add64 : ℕ → ℕ → ℕ
add64 a b = (a + b) % u64

abbrev pub sub64 : ℕ → ℕ → ℕ
sub64 a b = (a + u64 - b) % u64

pub record Capture : Type 0 where
  pub offset : ℕ
  pub seen : ℕ
  pub body : Bytes
  pub copied : ℕ

-- The bounds of a slice expression that stops the program.
unfoldable pub copy_range : Capture → Bytes → ℕ → ℕ → ℕ → Outcome Capture
unfolding drop take overwrite
copy_range w chunk source_start source_end destination = do
  let source = take (source_end - source_start) (drop source_start chunk)
  let onto = drop destination w.body
  refuse_if (ltb (length w.body) destination) capture_panic
  refuse_if (ltb source_end source_start || ltb (length chunk) source_end) capture_panic
  ok record w {
    body = take destination w.body ++ overwrite onto source;
    copied = w.copied + least (length onto) (length source);
  }

-- Write
unfoldable pub capture_write : Capture → Bytes → Outcome Capture
unfolding copy_range
capture_write w chunk =
    let start = w.seen in
    let end = add64 start (length chunk) in
    let wanted_end = add64 w.offset (length w.body) in
    let copy_start = most start w.offset in
    let copy_end = least end wanted_end in
    let next = record w { seen = end } in
    if leb end w.offset || leb wanted_end start
    then ok next
    else copy_range next chunk (sub64 copy_start start) (sub64 copy_end start)
        (sub64 copy_start w.offset)

unfoldable pub capture_all : Capture → List Bytes → Outcome Capture
unfolding capture_write
capture_all w [] = ok w
capture_all w (chunk ∷ chunks) = capture_write w chunk >>= λ next. capture_all next chunks

-- make([]byte, n)
unfoldable pub zeros : ℕ → Bytes
zeros zero = []
zeros (suc n) = 0 ∷ zeros n

abbrev pub new_capture : ℕ → ℕ → Capture
new_capture offset wanted = record { offset = offset; seen = 0; body = zeros wanted; copied = 0 }

-- How much of a body of `size` bytes a range asks for.
unfoldable pub wanted_length : ℕ → ℕ → ℕ → ℕ
wanted_length offset count size =
    let end = add64 offset count in
    let clipped = if ltb end offset || ltb size end then size else end in
    if not (count == 0) && ltb offset size then sub64 clipped offset else 0
