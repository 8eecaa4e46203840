-- ===== src/BlockList/File.antt =====
-- The block list that src/blocklist.cpp makes of the lines of a file.
use packet_inspector.Base.{◌≡◌, ◌↔◌, ◌⊎◌, inl, inr, true, List, [], ◌∷◌, Bytes}
use packet_inspector.BlockList.{
  BlockList, parse_line, add_entry, add_lines, load, is_hostname_blocked,
}
use packet_inspector.BlockList.Suffixes.{
  Listed, here, there, Blocked, by_name, by_suffix, is_hostname_blocked-Blocked,
}
use packet_inspector.BlockList.Entries.{
  Strips, Asks, parse_line-Strips, Strips-unique, no_way, Adds, add_entry-Adds,
}

-- One of the lines asks to block the hostname.
pub record IsAsked (lines : List Bytes) (hostname : Bytes) : Type 0 where
  pub line : Bytes
  pub entry : Bytes
  pub listed : Listed line lines
  pub strips : Strips line entry
  pub asks : Asks entry hostname

IsAsked-later :
    (line hostname : Bytes) (lines : List Bytes)
    → IsAsked lines hostname
    → IsAsked (line ∷ lines) hostname
IsAsked-later line hostname lines a = record {
  line = a.line;
  entry = a.entry;
  listed = there a.line line lines a.listed;
  strips = a.strips;
  asks = a.asks;
}

IsAsked-split :
    (hostname : Bytes) (l : Bytes) (lines : List Bytes) (entry x : Bytes)
    → Listed x (l ∷ lines)
    → Strips x entry
    → Asks entry hostname
    → Asks (parse_line l) hostname ⊎ IsAsked lines hostname
IsAsked-split hostname l lines entry _ (here _ _) strips asks = inl (rw (Strips-unique strips) asks)
IsAsked-split hostname l lines entry x (there _ _ _ listed) strips asks =
    inr (record { line = x; entry = entry; listed = listed; strips = strips; asks = asks })

-- One line, given what the lines behind it do.
line-Blocked :
    (l : Bytes) (lines : List Bytes) (hostname : Bytes) (b : BlockList) {X : Type 0}
    → X ↔ (Blocked (add_entry (parse_line l) b) hostname ⊎ IsAsked lines hostname)
    → X ↔ (Blocked b hostname ⊎ IsAsked (l ∷ lines) hostname)
line-Blocked l lines hostname b {X} rest = (split, join)
  where
    first : Adds (parse_line l) hostname b
    first = add_entry-Adds (parse_line l) hostname b

    split : X → Blocked b hostname ⊎ IsAsked (l ∷ lines) hostname
    split h = elim (rest.0 h) [
      | inr later ↦ inr (IsAsked-later l hostname lines later)
      | inl now ↦ elim (first.0 now) [
        | inl before ↦ inl before
        | inr asks ↦ inr (record {
          line = l;
          entry = parse_line l;
          listed = here l lines;
          strips = parse_line-Strips l;
          asks = asks;
        })
      ]
    ]

    join : Blocked b hostname ⊎ IsAsked (l ∷ lines) hostname → X
    join (inl before) = rest.1 (inl (first.1 (inl before)))
    join (inr a) = elim (IsAsked-split hostname l lines a.entry a.line a.listed a.strips a.asks) [
      | inl asks ↦ rest.1 (inl (first.1 (inr asks)))
      | inr later ↦ rest.1 (inr later)
    ]

add_lines-Blocked :
    (lines : List Bytes) (hostname : Bytes) (b : BlockList)
    → Blocked (add_lines lines b) hostname ↔ (Blocked b hostname ⊎ IsAsked lines hostname)
unfolding add_lines
add_lines-Blocked [] hostname b = no_way (λ a. elim a.listed [ ])
add_lines-Blocked (l ∷ lines) hostname b =
    line-Blocked l lines hostname b (add_lines-Blocked lines hostname (add_entry (parse_line l) b))

empty-Blocked : (hostname : Bytes) → ¬ Blocked (record { exact = []; wildcard = [] }) hostname
empty-Blocked hostname (by_name l) = elim l [ ]
empty-Blocked hostname (by_suffix c suffix l below) = elim l [ ]

-- With the block list that is made of the lines of a file: a hostname is blocked exactly if, white space
-- left out, one of the lines is that hostname, without a number sign at its start and not itself a
-- wildcard, or is a wildcard of whose suffix the hostname is a proper subdomain.
pub load-IsAsked :
    (lines : List Bytes) (hostname : Bytes)
    → (is_hostname_blocked (load lines) hostname ≡ true) ↔ IsAsked lines hostname
unfolding load
load-IsAsked lines hostname =
    let test = is_hostname_blocked-Blocked (load lines) hostname in
    let both = add_lines-Blocked lines hostname (record { exact = []; wildcard = [] }) in
    (
      λ h. elim (both.0 (test.0 h)) [
        | inl before ↦ absurd (empty-Blocked hostname before)
        | inr asked ↦ asked
      ],
      λ a. test.1 (both.1 (inr a)),
    )
