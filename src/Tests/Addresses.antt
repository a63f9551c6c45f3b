-- ===== src/Tests/Addresses.antt =====
-- Tests and examples of the text of /proc/self/maps and of the walk along the frame pointers.
use memory_trace_tool.Base.{
  ℕ, length, ◌≡◌, ◌↔◌, ◌<◌, ◌≤◌, refl, subst, true, false, none, some, List, [], ◌∷◌, ◌==◌,
  if◌then◌else◌, arith,
}
use memory_trace_tool.State.{stack_depth}
use memory_trace_tool.Ranges.{ExecRange, fix_thumb_addr, addr_is_executable}
use memory_trace_tool.Threads.{fresh_thread}
use memory_trace_tool.Maps.{MapsLine, digit_value, parse_maps}
use memory_trace_tool.Maps.Fields.{Spelling, IsNumeral}
use memory_trace_tool.Maps.Lines.{Layout, line_of, after_inode, IsLine, Spells, exec_ranges}
use memory_trace_tool.Maps.Table.{HasCode, exec_ranges-IsSorted, parse_maps-executable_iff}
use memory_trace_tool.Capture.{Unwinders, Machine, capture_stack}
use memory_trace_tool.Request.{c_string}
use memory_trace_tool.Http.{contains}
use memory_trace_tool.Maps.{skip_blanks, scan_byte, scan_word, scan_number}
use memory_trace_tool.Blacklist.{is_lr_in_blacklist}
use memory_trace_tool.Blacklist.Texts.{tokens_of, has_token, is_internal_frame, libc_start_text}
use memory_trace_tool.Blacklist.Fast.{parse_blacklist_fast, blacklist_ranges_max}
use memory_trace_tool.Blacklist.Fast.Mapped.{
  ShortLines, HasNamed, named_ranges, libraries, no_ranges, parse_blacklist_fast_iff,
}
use memory_trace_tool.Capture.Walk.{IsBlank, Walked, capture_stack-Walked}

-- "10-30 r-xp 0 8:1 4 /a", an executable file at 16 to 48
abbrev mapping : MapsLine
mapping = record { lo = 16; hi = 48; perm = 114 ∷ 45 ∷ 120 ∷ 112 ∷ []; path = 47 ∷ 97 ∷ [] }

abbrev layout : Layout
layout = record {
  lo = 49 ∷ 48 ∷ [];
  hi = 51 ∷ 48 ∷ [];
  offset = 48 ∷ [];
  major = 56 ∷ [];
  minor = 49 ∷ [];
  inode = 52 ∷ [];
  padding = 0;
}

numeral : {base d v : ℕ} → digit_value base d ≡ some v → v < 10 → IsNumeral base (d ∷ []) v
numeral {base = base} {d = d} {v = v} e small = record {
  spelling = Spelling.digit e (subst (λ n. Spelling base n [] v) (omega arith) Spelling.done);
  some_digit = λ h. cc;
  fits = omega arith;
}

mapping-IsLine : IsLine mapping layout
unfolding digit_value line_of after_inode
mapping-IsLine = record {
  lo = record {
    spelling = Spelling.digit refl (Spelling.digit refl Spelling.done);
    some_digit = λ h. cc;
    fits = omega arith;
  };
  hi = record {
    spelling = Spelling.digit refl (Spelling.digit refl Spelling.done);
    some_digit = λ h. cc;
    fits = omega arith;
  };
  offset = (0, numeral refl (omega arith));
  major = (8, numeral refl (omega arith));
  minor = (1, numeral refl (omega arith));
  inode = (4, numeral refl (omega arith));
  perm = (refl, (refl, (refl, (refl, tt))));
  some_perm = λ h. cc;
  short_perm = omega arith;
  path = refl;
  one_line = ground arith;
  no_nul = ground arith;
}

abbrev maps_text : List ℕ
maps_text =
    49 ∷ 48 ∷ 45 ∷ 51 ∷ 48 ∷ 32 ∷ 114 ∷ 45 ∷ 120 ∷ 112 ∷ 32 ∷ 48 ∷ 32 ∷ 56 ∷ 58 ∷ 49 ∷ 32 ∷ 52 ∷ 32
    ∷ 47 ∷ 97 ∷ 10 ∷ []

maps_text-Spells : Spells (mapping ∷ []) maps_text
unfolding line_of after_inode
maps_text-Spells = Spells.line layout mapping-IsLine Spells.nothing

abbrev one_range : List ExecRange
one_range = record { lo = 16; hi = 48; libname = 97 ∷ [] } ∷ []

text_parsed : parse_maps (some maps_text) [] ≡ one_range
unfolding parse_maps
text_parsed = refl

parse_maps-executable_iff_example :
    (addr_is_executable (parse_maps (some maps_text) []) 33 ≡ true)
    ↔ HasCode (fix_thumb_addr 33) (mapping ∷ [])
unfolding exec_ranges
parse_maps-executable_iff_example =
    parse_maps-executable_iff [] 33 maps_text-Spells (omega arith, omega arith, tt) (omega arith)
      (omega arith) (omega arith)

-- A frame at 1000 whose caller's frame is at 2000, where the chain ends.
abbrev machine : Machine
machine = record {
  memory = λ a. if a == 1000 then 2000 else if a == 1008 then 33 else 0;
  frame_address = 1000;
  ranges = one_range;
}

abbrev unwinders : Unwinders
unwinders = record {
  mode = 0;
  available = true;
  disabled = false;
  disabled_after = false;
  libunwind = none;
  backtrace = [];
  safe_backtrace = [];
}

unwinders-IsBlank : IsBlank unwinders
unwinders-IsBlank = record { libunwind = λ frames e. cc; backtrace = refl; safe_backtrace = refl }

one_frame : (capture_stack unwinders machine (some (fresh_thread 5))).0 ≡ 32 ∷ []
unfolding capture_stack addr_is_executable
one_frame = refl

capture_stack-Walked_example :
    Walked machine stack_depth 1000 (capture_stack unwinders machine (some (fresh_thread 5))).0
    × ((capture_stack unwinders machine (some (fresh_thread 5))).1 ≡ some (fresh_thread 5))
unfolding exec_ranges
capture_stack-Walked_example =
    capture_stack-Walked unwinders machine (fresh_thread 5)
      (exec_ranges-IsSorted 0 (mapping ∷ []) (omega arith, omega arith, tt)) refl unwinders-IsBlank

-- "b, a,"
abbrev names : List ℕ
names = 98 ∷ 44 ∷ 32 ∷ 97 ∷ 44 ∷ []

two_names : libraries names ≡ (98 ∷ []) ∷ (97 ∷ []) ∷ []
unfolding tokens_of
two_names = refl

maps_text-ShortLines : ShortLines (mapping ∷ []) maps_text
unfolding line_of after_inode
maps_text-ShortLines = ShortLines.line layout mapping-IsLine (omega arith) ShortLines.nothing

few_named : length (named_ranges (libraries names) (mapping ∷ [])) ≤ blacklist_ranges_max
unfolding named_ranges tokens_of has_token contains
few_named = omega arith

parse_blacklist_fast_iff_example :
    (is_lr_in_blacklist
        (parse_blacklist_fast (some names) (some maps_text) none no_ranges).blacklist
        20
      ≡ true)
    ↔ HasNamed (libraries names) 20 (mapping ∷ [])
parse_blacklist_fast_iff_example =
    parse_blacklist_fast_iff names none 20 maps_text-ShortLines few_named (omega arith)

caller_named :
    (parse_blacklist_fast (some names) (some maps_text) (some (47 ∷ 98 ∷ [])) no_ranges).disables
    ≡ true
unfolding parse_blacklist_fast tokens_of has_token contains skip_blanks scan_number scan_byte
    scan_word digit_value c_string
caller_named = refl

-- a symbol of a library on the list is hidden, and the entry of libc is not
hidden : is_internal_frame (some names) (some (120 ∷ 97 ∷ [])) ≡ true
unfolding is_internal_frame
hidden = refl

shown : is_internal_frame (some (95 ∷ [])) (some libc_start_text) ≡ false
unfolding is_internal_frame
shown = refl
