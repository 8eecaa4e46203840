-- ===== src/BlockList.antt =====
-- src/blocklist.cpp: the entries of a file, and the test of a hostname against them. The two sets are
-- lists; strings are lists of bytes; the file's contents are an argument.
pub mod Suffixes
pub mod Entries
pub mod File
use packet_inspector.Base.{
  ℕ, zero, suc, Bool, true, false, ◌&&◌, ◌||◌, not, List, [], ◌∷◌, ◌++◌, leb, ltb, ◌==◌,
  if◌then◌else◌, Bytes, length, drop, get_or,
}

pub record BlockList : Type 0 where
  pub exact : List Bytes
  pub wildcard : List Bytes

abbrev pub dot : ℕ
dot = 46

abbrev is_empty : Bytes → Bool
is_empty [] = true
is_empty (c ∷ cs) = false

-- Equality of strings.
unfoldable pub same : Bytes → Bytes → Bool
same [] [] = true
same [] (y ∷ ys) = false
same (x ∷ xs) [] = false
same (x ∷ xs) (y ∷ ys) = x == y && same xs ys

-- `HostSet::find`
unfoldable pub contains : Bytes → List Bytes → Bool
contains s [] = false
contains s (t ∷ ts) = same s t || contains s ts

-- `std::isspace`, in the C locale.
abbrev pub is_space : ℕ → Bool
is_space c = c == 32 || leb 9 c && leb c 13

unfoldable pub parse_line : Bytes → Bytes
parse_line [] = []
parse_line (c ∷ cs) = if is_space c then parse_line cs else c ∷ parse_line cs

-- The body of the constructor's loop, on a line that `parse_line` has stripped.
unfoldable pub add_entry : Bytes → BlockList → BlockList
add_entry [] b = b
add_entry (c ∷ cs) b =
    if c == 35
    then b
    else if ltb 2 (length (c ∷ cs)) && c == 42 && get_or cs 0 0 == dot
    then record b { wildcard = drop 2 (c ∷ cs) ∷ b.wildcard }
    else record b { exact = (c ∷ cs) ∷ b.exact }

unfoldable pub add_lines : List Bytes → BlockList → BlockList
add_lines [] b = b
add_lines (line ∷ lines) b = add_lines lines (add_entry (parse_line line) b)

-- The constructor, on the lines that `std::getline` gives.
unfoldable pub load : List Bytes → BlockList
load lines = add_lines lines (record { exact = []; wildcard = [] })

-- The loop of `isHostnameBlocked`, on the characters that are left: `hostname.find('.', …)` is the
-- next of them that is a dot, and the suffix is what follows it.
unfoldable pub has_blocked_parent : List Bytes → Bytes → Bool
has_blocked_parent wildcard [] = false
has_blocked_parent wildcard (c ∷ suffix) =
    let rest = has_blocked_parent wildcard suffix in
    if c == dot
    then if is_empty suffix then false else if contains suffix wildcard then true else rest
    else rest

unfoldable pub is_hostname_blocked : BlockList → Bytes → Bool
is_hostname_blocked b hostname =
    if contains hostname b.exact then true else has_blocked_parent b.wildcard hostname
