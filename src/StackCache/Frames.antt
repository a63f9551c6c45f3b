-- ===== src/StackCache/Frames.antt =====
-- src/stack_cache.c: the symbol of a frame, `resolve_one_frame`, with what it calls, and
-- `mtt_stack_resolve`. What dladdr, backtrace_symbols and the demangler give is in `Symbolizer`.
pub mod Again
use memory_trace_tool.Base.{
  ℕ, zero, suc, ◌+◌, ◌-◌, ◌^◌, Bool, true, false, not, ◌&&◌, ◌||◌, Option, none, some, List, [],
  ◌∷◌, ◌++◌, if◌then◌else◌, ◌==◌, ltb, length, take, drop, sub64,
}
use memory_trace_tool.State.{null}
use memory_trace_tool.Ranges.{fix_thumb_addr}
use memory_trace_tool.StackCache.{
  AddrEntry, StackEntry, symbol_max, addr_cache_lookup, addr_cache_insert,
}
use memory_trace_tool.Http.{starts_with, contains, lib_text, hex_text}
use memory_trace_tool.Maps.{after_last, scan_number}
use memory_trace_tool.StackCache.Spots.{
  index_of, Places, places_of, between, binary_name, Spot, spot_at, spot_of,
}

-- `Dl_info`
pub record DlInfo : Type 0 where
  pub fname : Option (List ℕ)
  pub fbase : ℕ
  pub sname : Option (List ℕ)
  pub saddr : ℕ

-- What the libraries give: dladdr, the text of backtrace_symbols, `__cxa_demangle` where it is
-- there and succeeds, the header of /proc/self/exe as far as it is read, and its path.
pub record Symbolizer : Type 0 where
  pub dladdr : ℕ → Option DlInfo
  pub symbols : ℕ → Option (List ℕ)
  pub cxa_demangle : List ℕ → Option (List ℕ)
  pub exe_header : List ℕ
  pub exe_path : List ℕ

-- `demangle_symbol`
pub demangle_symbol : Symbolizer → List ℕ → List ℕ
unfolding starts_with
demangle_symbol y name =
    let plain = take 255 name in
    if starts_with (95 ∷ 90 ∷ []) name
    then elim (y.cxa_demangle name) [ none ↦ plain | some text ↦ take 255 text ]
    else plain

-- `main_is_non_pie`: an ELF file whose type is ET_EXEC
pub main_is_non_pie : List ℕ → Bool
main_is_non_pie header =
    not (ltb (length header) 20)
    && starts_with (0x7f ∷ 69 ∷ 76 ∷ 70 ∷ []) header
    && starts_with (2 ∷ 0 ∷ []) (drop 16 header)

pub equal_text : List ℕ → List ℕ → Bool
equal_text [] [] = true
equal_text [] (d ∷ ds) = false
equal_text (c ∷ cs) [] = false
equal_text (c ∷ cs) (d ∷ ds) = c == d && equal_text cs ds

-- `is_main_exe_path`; an empty path stands for a readlink that fails
pub is_main_exe_path : List ℕ → List ℕ → Bool
unfolding equal_text
is_main_exe_path exe [] = false
is_main_exe_path exe (c ∷ cs) = not (length exe == 0) && equal_text (c ∷ cs) exe

-- a difference of pointers, 0 where it is negative
abbrev pub offset_from : ℕ → ℕ → ℕ
offset_from base addr = let d = sub64 addr base in if ltb d (2 ^ 63) then d else 0

-- `frame_addr2line_addr`
pub frame_addr2line_addr : Symbolizer → ℕ → List ℕ → ℕ → ℕ
unfolding main_is_non_pie is_main_exe_path
frame_addr2line_addr y addr fname fbase =
    if main_is_non_pie y.exe_header && is_main_exe_path y.exe_path fname
    then addr
    else if not (fbase == null)
    then sub64 addr fbase
    else addr

-- `func_name`, `func_off`, `lib_name` and `file_off`
pub record Symbol : Type 0 where
  pub name : List ℕ
  pub offset : ℕ
  pub lib : List ℕ
  pub file_offset : ℕ

-- "??"
abbrev pub unknown : List ℕ
unknown = 63 ∷ 63 ∷ []

abbrev or_unknown : List ℕ → List ℕ
or_unknown [] = unknown
or_unknown (c ∷ cs) = c ∷ cs

abbrev or_lib : List ℕ → Option (List ℕ) → List ℕ
or_lib lib none = lib
or_lib lib (some name) = name

abbrev fits_name : List ℕ → Bool
fits_name name = ltb 0 (length name) && ltb (length name) 256

-- the second look at a function that dladdr puts into the tool itself
pub corrected : Symbol → Spot → Symbol
corrected sym (Spot.named_at name offset) = record sym {
  name = if fits_name name then name else [];
  offset = offset;
}
corrected sym (Spot.named name) = record sym { name = if fits_name name then name else sym.name }
corrected sym Spot.neither = record sym { name = [] }

pub look_again : Symbol → Option (List ℕ) → Symbol
unfolding corrected places_of spot_at binary_name
look_again sym none = record sym { name = or_unknown sym.name }
look_again sym (some text) =
    let places = places_of text in
    let again = corrected sym (spot_of text places) in
    record again {
      name = or_unknown again.name;
      lib = or_lib sym.lib (binary_name false text places.paren);
    }

-- the function's name and offset where dladdr has none
pub filled : Symbol → Spot → Symbol
filled sym (Spot.named_at name offset) = record sym { name = take 255 name; offset = offset }
filled sym (Spot.named name) = record sym { name = take 255 name }
filled sym Spot.neither = sym

pub look_up_name : Symbol → Option (List ℕ) → Symbol
unfolding contains filled places_of spot_at binary_name
look_up_name sym none = record sym { name = or_unknown sym.name }
look_up_name sym (some text) =
    let places = places_of text in
    let found = filled sym (spot_of text places) in
    record found {
      name = or_unknown found.name;
      lib =
          if contains lib_text sym.lib
          then or_lib sym.lib (binary_name true text places.paren)
          else sym.lib;
    }

-- "%p", which writes an address in hexadecimal digits
abbrev or_address : ℕ → List ℕ → List ℕ
or_address addr [] = 48 ∷ 120 ∷ hex_text 15 addr []
or_address addr (c ∷ cs) = c ∷ cs

pub without_dladdr : ℕ → Option (List ℕ) → Symbol
unfolding filled places_of spot_at hex_text
without_dladdr addr text =
    let blank : Symbol = record { name = []; offset = 0; lib = unknown; file_offset = 0 } in
    let found : Symbol = elim text [
      | none ↦ blank
      | some t ↦ filled blank (spot_of t (places_of t))
    ] in
    record found { name = or_address addr found.name }

abbrev full_name : DlInfo → List ℕ
full_name info = elim info.fname [ none ↦ [] | some name ↦ name ]

-- the part behind the last slash
abbrev base_name : List ℕ → List ℕ
base_name path = elim (after_last 47 path) [ none ↦ path | some base ↦ base ]

pub file_offset_of : Symbolizer → ℕ → DlInfo → ℕ
unfolding frame_addr2line_addr
file_offset_of y addr info =
    let v = frame_addr2line_addr y addr (full_name info) info.fbase in
    if info.fbase == null then 0 else if ltb v (2 ^ 63) then v else 0

pub with_dladdr : Symbolizer → ℕ → DlInfo → Symbol
unfolding look_again look_up_name file_offset_of contains
with_dladdr y addr info =
    let lib = base_name (full_name info) in
    let at : List ℕ → ℕ → Symbol = λ name offset. record {
      name = name;
      offset = offset;
      lib = lib;
      file_offset = file_offset_of y addr info;
    } in
    elim info.sname [
      | some name ↦
          let entry = fix_thumb_addr info.saddr in
          let sym = at (take 255 name) (if info.saddr == null then 0 else offset_from entry addr) in
          if contains lib_text lib then look_again sym (y.symbols addr) else sym
      | none ↦
          look_up_name (at [] (if info.fbase == null then 0 else offset_from info.fbase addr))
            (y.symbols addr)
    ]

-- "%#tx"
pub hex_offset : ℕ → List ℕ
unfolding hex_text
hex_offset n = if n == 0 then 48 ∷ [] else 48 ∷ 120 ∷ hex_text 15 n []

-- "%s+%#tx (%s+%#tx)"
pub symbol_text : Symbolizer → Symbol → List ℕ
unfolding demangle_symbol hex_offset
symbol_text y sym =
    demangle_symbol y sym.name
    ++ (43
        ∷ (hex_offset sym.offset
            ++ (32 ∷ 40 ∷ (sym.lib ++ (43 ∷ (hex_offset sym.file_offset ++ (41 ∷ [])))))))

pub symbol_of : Symbolizer → ℕ → Symbol
unfolding with_dladdr without_dladdr
symbol_of y addr = elim (y.dladdr addr) [
  | none ↦ without_dladdr addr (y.symbols addr)
  | some info ↦ with_dladdr y addr info
]

-- the answer of the cache, or else the symbol, which the cache then keeps
unfoldable pub answered :
    Symbolizer → ℕ → ℕ → List AddrEntry → Option (List ℕ) → Option (List ℕ) × List AddrEntry
unfolding symbol_of symbol_text
answered y addr out_size cache (some text) = (some text, cache)
answered y addr out_size cache none =
    let text = take (out_size - 1) (symbol_text y (symbol_of y addr)) in
    (some text, addr_cache_insert addr text cache)

-- `resolve_one_frame`: the text that it writes (nothing where it writes none), and the cache
unfoldable pub resolve_one_frame :
    Symbolizer → ℕ → ℕ → List AddrEntry → Option (List ℕ) × List AddrEntry
resolve_one_frame y addr out_size cache =
    if addr == null || out_size == 0
    then (none, cache)
    else answered y addr out_size cache (addr_cache_lookup addr out_size cache)

-- the loop of `mtt_stack_resolve`
pub resolve_frames : Symbolizer → List ℕ → List AddrEntry → List (Option (List ℕ)) × List AddrEntry
unfolding resolve_one_frame
resolve_frames y [] cache = ([], cache)
resolve_frames y (f ∷ fs) cache =
    let (text, cache') = resolve_one_frame y f symbol_max cache in
    let (texts, cache'') = resolve_frames y fs cache' in (text ∷ texts, cache'')

-- `mtt_stack_resolve`: the texts of the frames, or nothing where they are there already, with the
-- entry and the cache
unfoldable pub stack_resolve :
    Symbolizer
    → StackEntry
    → List AddrEntry
    → Option (List (Option (List ℕ))) × StackEntry × List AddrEntry
unfolding resolve_frames
stack_resolve y e cache = if e.is_resolved then (none, e, cache) else (
  some (resolve_frames y e.frames cache).0,
  record e { is_resolved = true },
  (resolve_frames y e.frames cache).1,
)
