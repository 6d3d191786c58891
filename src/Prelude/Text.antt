-- ===== src/Prelude/Text.antt =====
-- Texts: Python's `str.strip` as a test of blankness, SQLite's `trim`, comparison and concatenation.
use Prim.Native.Nat.{ℕ}
use Prim.Native.Char.{Char, code}
use Prim.Native.String.append
use Prim.Native.String.{String, ◌++◌}
use mathlib.Core.Path.{◌≡◌, refl}
use mathlib.Core.Bool.{Bool, true, false, ◌&&◌, ◌||◌}
use native.Mathlib.Omega.{arith}
use tabdeal_futures_signal_b.Prelude.Tests.{leb, ◌==◌, if◌then◌else◌}

-- `str.isspace` of one code point: what `str.strip()` removes.
unfoldable pub is_space : ℕ → Bool
is_space c =
    (leb 9 c && leb c 13)
    || (leb 28 c && leb c 32)
    || (c == 133)
    || (c == 160)
    || (c == 5760)
    || (leb 8192 c && leb c 8202)
    || (c == 8232)
    || (c == 8233)
    || (c == 8239)
    || (c == 8287)
    || (c == 12288)

-- `not s.strip()`: every character is white space.
unfoldable pub blank : String → Bool
blank String.[] = true
blank (String.◌∷◌ c s) = is_space (code c) && blank s

-- SQLite's `trim(s) = ''`: every character is U+0020.
unfoldable pub trim_empty : String → Bool
trim_empty String.[] = true
trim_empty (String.◌∷◌ c s) = (code c == 32) && trim_empty s

-- A text that SQLite trims to nothing is blank for Python.
pub blank-trim_empty : (s : String) → trim_empty s ≡ true → blank s ≡ true
unfolding blank trim_empty is_space
blank-trim_empty String.[] h = refl
blank-trim_empty (String.◌∷◌ c s) h = ground (arith, blank-trim_empty s)

-- A text that begins with a character that is no space is not blank, whatever follows.
pub blank-append_code :
    (c : Char) (s t : String) → is_space (code c) ≡ false → blank (◌++◌ (String.◌∷◌ c s) t) ≡ false
unfolding blank
blank-append_code c s t h = rw append.cons (ground (arith, h))

-- A text with a character that is no space is not blank, whatever follows or stands before it.
pub blank-append_left : (s t : String) → blank s ≡ false → blank (s ++ t) ≡ false
unfolding blank
blank-append_left String.[] t h = cc
blank-append_left (String.◌∷◌ c s) t h = rw append.cons (ground (arith, blank-append_left s t))

pub blank-append_right : (s t : String) → blank t ≡ false → blank (s ++ t) ≡ false
unfolding blank
blank-append_right String.[] t h = rw append.nil h
blank-append_right (String.◌∷◌ c s) t h = rw append.cons (ground (arith, blank-append_right s t h))

-- `s.lstrip()`, `s.rstrip()` and `s.strip()`.
unfoldable pub lstrip : String → String
lstrip String.[] = String.[]
lstrip (String.◌∷◌ c s) = if is_space (code c) then lstrip s else String.◌∷◌ c s

abbrev pub no_text : String → Bool
no_text String.[] = true
no_text (String.◌∷◌ c s) = false

unfoldable pub rstrip : String → String
rstrip String.[] = String.[]
rstrip (String.◌∷◌ c s) =
    let rest = rstrip s in
    if is_space (code c) && no_text rest then String.[] else String.◌∷◌ c rest

unfoldable pub strip : String → String
unfolding lstrip rstrip
strip s = rstrip (lstrip s)

rstrip_idempotent : (s : String) → rstrip (rstrip s) ≡ rstrip s
unfolding rstrip
rstrip_idempotent String.[] = refl
rstrip_idempotent (String.◌∷◌ c s) = ground (arith, rstrip_idempotent s)

lstrip-rstrip-lstrip : (s : String) → lstrip (rstrip (lstrip s)) ≡ rstrip (lstrip s)
unfolding lstrip rstrip
lstrip-rstrip-lstrip String.[] = refl
lstrip-rstrip-lstrip (String.◌∷◌ c s) = ground (arith, lstrip-rstrip-lstrip s)

-- Stripping twice is stripping once.
pub strip_idempotent : (s : String) → strip (strip s) ≡ strip s
unfolding strip
strip_idempotent s = rw lstrip-rstrip-lstrip (rstrip_idempotent (lstrip s))
