-- ===== src/Capture/Selection.antt =====
-- lib/kairo_capture.js: the selected text as it is sent (normalizeSelection).
use Prim.Native.Char.{Char, code}
use elektrine.Base.{
  ℕ, suc, ◌≡◌, refl, ap, ◌∙◌, ◌≤◌, String, Bool, true, false, not, ◌&&◌, ◌||◌, leb, ◌==◌,
  if◌then◌else◌, min, is_space, trim, trim_start, trim_end, truthy, inl, inr, Bool-cases, arith,
}

-- Whether the white space that `s` starts with has a line end in it.
abbrev newline_ahead : String → Bool
newline_ahead String.[] = false
newline_ahead (String.◌∷◌ c s) = is_space (code c) && (code c == 10 || newline_ahead s)

-- `replace(/\s+\n/g, "\n")`. In a run of white space the match goes from the first character to
-- the last line end, so the characters that go are those with a line end after them in the run.
unfoldable squeeze : String → String
squeeze String.[] = ""
squeeze (String.◌∷◌ c s) =
    let rest = squeeze s in if is_space (code c) && newline_ahead s then rest else String.◌∷◌ c rest

-- The line ends that stand together, counted up to two.
abbrev next_count : ℕ → ℕ → ℕ
next_count n c = if c == 10 then min 2 (suc n) else 0

-- `replace(/\n{3,}/g, "\n\n")`, after `n` line ends.
unfoldable collapse : ℕ → String → String
collapse n String.[] = ""
collapse n (String.◌∷◌ c s) =
    let rest = collapse (next_count n (code c)) s in
    if code c == 10 && leb 2 n then rest else String.◌∷◌ c rest

unfoldable pub normalize_selection : String → String
unfolding squeeze collapse
normalize_selection value = trim (collapse 0 (squeeze value))

normalize_selection_tests :
    (squeeze "a \n\n b\n c\nd" ≡ "a\n b\n c\nd") × (collapse 0 "a\n\n\n\nb\nc" ≡ "a\n\nb\nc")
unfolding squeeze collapse is_space
normalize_selection_tests = (refl, refl)

abbrev starts_line : String → Bool
starts_line String.[] = false
starts_line (String.◌∷◌ c s) = code c == 10

abbrev pub has_empty_line : String → Bool
has_empty_line String.[] = false
has_empty_line (String.◌∷◌ c s) = code c == 10 && starts_line s || has_empty_line s

dark_no_newline : (c : ℕ) → is_space c ≡ false → (c == 10) ≡ false
unfolding is_space
dark_no_newline c h = ground arith

left_false : (a b : Bool) → (a || b) ≡ false → a ≡ false
left_false a b h = ground (arith, h)

right_false : (a b : Bool) → (a || b) ≡ false → b ≡ false
right_false a b h = ground (arith, h)

neither : (a b c : Bool) → (a && (b || c)) ≡ false → a ≡ true → (b ≡ false) × (c ≡ false)
neither a b c h e = ground (arith, h, e)

squeeze-starts : (s : String) → newline_ahead s ≡ false → starts_line (squeeze s) ≡ false
unfolding squeeze
squeeze-starts String.[] h = refl
squeeze-starts (String.◌∷◌ c s) h = elim (Bool-cases (is_space (code c))) [
  | inl e ↦
      let (line, ahead) = neither (is_space (code c)) (code c == 10) (newline_ahead s) h e in
      rw (e, ahead) line
  | inr e ↦ rw e (dark_no_newline (code c) e)
]

newline_space : (c : ℕ) → (c == 10) ≡ true → is_space c ≡ true
unfolding is_space
newline_space c h = ground (arith, h)

both_false : (a b : Bool) → a ≡ false → b ≡ false → (a || b) ≡ false
both_false a b h k = ground (arith, h, k)

later_apart :
    (c : Char) (s : String) → has_empty_line (String.◌∷◌ c s) ≡ false → has_empty_line s ≡ false
later_apart c s h = right_false (code c == 10 && starts_line s) (has_empty_line s) h

line_apart :
    (c : ℕ) (line space ahead : Bool)
    → ((c == 10) ≡ true → space ≡ true)
    → (space && ahead) ≡ false
    → (ahead ≡ false → line ≡ false)
    → ((c == 10) && line) ≡ false
line_apart c line space ahead f g h = ground (arith, f, g, h)

-- No line end of what `squeeze` leaves stands before another.
squeeze-apart : (s : String) → has_empty_line (squeeze s) ≡ false
unfolding squeeze
squeeze-apart String.[] = refl
squeeze-apart (String.◌∷◌ c s) = elim (Bool-cases (is_space (code c) && newline_ahead s)) [
  | inl e ↦ rw e (squeeze-apart s)
  | inr e ↦ rw e (
      both_false (code c == 10 && starts_line (squeeze s)) (has_empty_line (squeeze s))
        (line_apart (code c) (starts_line (squeeze s)) (is_space (code c)) (newline_ahead s)
          (newline_space (code c)) e (squeeze-starts s))
        (squeeze-apart s))
]

trim_start-apart : (s : String) → has_empty_line s ≡ false → has_empty_line (trim_start s) ≡ false
unfolding trim_start
trim_start-apart String.[] h = refl
trim_start-apart (String.◌∷◌ c s) h = elim (Bool-cases (is_space (code c))) [
  | inl e ↦ rw e (trim_start-apart s (later_apart c s h))
  | inr e ↦ rw e h
]

less_apart : (line a b : Bool) → (line && a) ≡ false → (a ≡ false → b ≡ false) → (line && b) ≡ false
less_apart line a b h f = ground (arith, h, f)

trim_end-starts : (s : String) → starts_line s ≡ false → starts_line (trim_end s) ≡ false
unfolding trim_end
trim_end-starts String.[] h = refl
trim_end-starts (String.◌∷◌ c s) h =
    elim (Bool-cases (is_space (code c) && not (truthy (trim_end s)))) [
      | inl e ↦ rw e refl
      | inr e ↦ rw e h
    ]

trim_end-apart : (s : String) → has_empty_line s ≡ false → has_empty_line (trim_end s) ≡ false
unfolding trim_end
trim_end-apart String.[] h = refl
trim_end-apart (String.◌∷◌ c s) h =
    elim (Bool-cases (is_space (code c) && not (truthy (trim_end s)))) [
      | inl e ↦ rw e refl
      | inr e ↦ rw e (
          both_false (code c == 10 && starts_line (trim_end s)) (has_empty_line (trim_end s))
            (less_apart (code c == 10) (starts_line s) (starts_line (trim_end s))
              (left_false (code c == 10 && starts_line s) (has_empty_line s) h) (trim_end-starts s))
            (trim_end-apart s (later_apart c s h)))
    ]

first_kept : (n c : ℕ) → n ≤ 1 → ((n == 1) && (c == 10)) ≡ false → ((c == 10) && leb 2 n) ≡ false
first_kept n c b k = ground (arith, b, k)

next_small : (n c : ℕ) → n ≤ 1 → ((n == 1) && (c == 10)) ≡ false → next_count n c ≤ 1
next_small n c b k = ground (arith, b, k)

next_starts :
    (n c : ℕ) (line : Bool) → ((c == 10) && line) ≡ false → ((next_count n c == 1) && line) ≡ false
next_starts n c line h = ground (arith, h)

and_false : (a : Bool) → ((0 == 1) && a) ≡ false
and_false a = refl

collapse-apart :
    (n : ℕ) (s : String)
    → n ≤ 1
    → has_empty_line s ≡ false
    → ((n == 1) && starts_line s) ≡ false
    → collapse n s ≡ s
unfolding collapse
collapse-apart n String.[] b h k = refl
collapse-apart n (String.◌∷◌ c s) b h k =
    let here = left_false (code c == 10 && starts_line s) (has_empty_line s) h in
    rw (first_kept n (code c) b k) (
      ap (String.◌∷◌ c) (
        collapse-apart (next_count n (code c)) s (next_small n (code c) b k) (later_apart c s h)
          (next_starts n (code c) (starts_line s) here)))

-- What the code sends of a selection has no empty line: the paragraphs of a page run together.
pub normalize_selection-apart : (s : String) → has_empty_line (normalize_selection s) ≡ false
unfolding normalize_selection trim
normalize_selection-apart s =
    let kept =
      collapse-apart 0 (squeeze s) (omega arith) (squeeze-apart s)
        (and_false (starts_line (squeeze s))) in
    trim_end-apart (trim_start (collapse 0 (squeeze s)))
      (trim_start-apart (collapse 0 (squeeze s)) (ap has_empty_line kept ∙ squeeze-apart s))
