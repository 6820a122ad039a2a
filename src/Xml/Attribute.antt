-- ===== src/Xml/Attribute.antt =====
-- lib/common/xml.c: `xml_attribute_next`, `xml_node_compile` and
-- `xml_text_find_key2`. A scan runs over the bytes of the
-- content and then over the one byte behind it, `behind`; each mode of the scan is a function.
pub mod Progress
use sipecho.Common.{
  ℕ, zero, suc, Bool, true, false, not, ◌&&◌, ◌||◌, ◌==◌, if◌then◌else◌, Option, none, some, List,
  [], ◌∷◌, length,
}
use sipecho.Xml.Text.{Bytes, isalpha, isspace, xml_text_cmp}
use sipecho.Xml.Element.{
  ElementType, attribute_node, element_node, Shape, shape_open, shape_single, Head, blank, Element,
  element, Elements, nil, cons,
}

-- The fields of `attribute` that a scan has filled, when it has found a name, and the content from
-- the offset that it returns.
pub record Scan : Type 0 where
  pub attribute : Option Head
  pub rest : Bytes

abbrev pub found : Bytes → Shape → Option Bytes → Bytes → Scan
found name shape content rest = record {
  attribute =
      some (record blank { type = attribute_node; shape = shape; name = name; content = content });
  rest = rest;
}

abbrev pub prefixed : ℕ → Bytes × Bytes → Bytes × Bytes
prefixed c (text, rest) = (c ∷ text, rest)

abbrev pub strchr : Bytes → ℕ → Bool
strchr [] c = c == 0
strchr (r ∷ rs) c = r == c || strchr rs c

-- The value ends at this byte, since `reject` is given and has it.
abbrev pub is_rejected : Option Bytes → ℕ → Bool
is_rejected none c = false
is_rejected (some reject) c = strchr reject c

-- Mode 4 behind a quote: the value, and the content behind its end.
unfoldable pub quoted_value : Option Bytes → ℕ → Bytes → Bytes × Bytes
quoted_value reject q [] = ([], [])
quoted_value reject q (c ∷ t) =
    let more = prefixed c (quoted_value reject q t) in
    if is_rejected reject c || c == q then ([], t) else more

-- Mode 4 without a quote.
unfoldable pub unquoted_value : Option Bytes → Bytes → Bytes × Bytes
unquoted_value reject [] = ([], [])
unquoted_value reject (c ∷ t) =
    let more = prefixed c (unquoted_value reject t) in
    if is_rejected reject c then ([], t) else if isspace c then ([], c ∷ t) else more

abbrev pub with_value : Bytes → Bytes × Bytes → Scan
with_value name (value, rest) = found name shape_open (some value) rest

-- Mode 3. At the end, a value is begun on the byte behind unless that is a space.
unfoldable pub want_value : Option Bytes → ℕ → Bytes → Bytes → Scan
unfolding quoted_value unquoted_value
want_value reject behind name [] =
    found name shape_open (if isspace behind then none else some []) []
want_value reject behind name (c ∷ t) =
    let later = want_value reject behind name t in
    if isspace c
    then later
    else with_value name (
        if (c == b'\'') || (c == b'"')
        then quoted_value reject c t
        else prefixed c (unquoted_value reject t))

-- Mode 2
unfoldable pub want_equals : Option Bytes → ℕ → Bytes → Bytes → Scan
unfolding want_value
want_equals reject behind name [] = found name shape_single none []
want_equals reject behind name (c ∷ t) =
    let later = want_equals reject behind name t in
    if c == b'='
    then want_value reject behind name t
    else if isalpha c
    then found name shape_single none (c ∷ t)
    else later

abbrev pub in_attribute_name : ℕ → Bool
in_attribute_name c = isalpha c || (c == b'-') || (c == b':') || (c == b'_')

-- The name that mode 1 scans, and the content from its end.
unfoldable pub attribute_name : Bytes → Bytes × Bytes
attribute_name [] = ([], [])
attribute_name (c ∷ t) =
    let more = prefixed c (attribute_name t) in if in_attribute_name c then more else ([], c ∷ t)

-- What mode 1 does behind the name.
abbrev pub after_name : Option Bytes → ℕ → Bytes × Bytes → Scan
after_name reject behind (name, []) =
    if in_attribute_name behind
    then record { attribute = none; rest = [] }
    else found name shape_single none []
after_name reject behind (name, c ∷ t) =
    if c == b'=' then want_value reject behind name t else want_equals reject behind name t

-- `xml_attribute_next`: mode 0 and the modes behind it.
unfoldable pub xml_attribute_next : Option Bytes → ℕ → Bytes → Scan
unfolding attribute_name want_equals want_value
xml_attribute_next reject behind [] = record { attribute = none; rest = [] }
xml_attribute_next reject behind (c ∷ t) =
    let later = xml_attribute_next reject behind t in
    if isalpha c then after_name reject behind (prefixed c (attribute_name t)) else later

abbrev pub prepend : Option Head → Elements → Elements
prepend none done = done
prepend (some h) done = cons (element h nil nil) done

-- The loop of `xml_node_compile` in so many rounds, `none` when they do not suffice. A new
-- attribute stands before the others.
unfoldable pub compile : ℕ → ℕ → Bytes → Elements → Option Elements
unfolding xml_attribute_next
compile rounds behind [] done = some done
compile zero behind (c ∷ t) done = none
compile (suc rounds) behind (c ∷ t) done =
    let scan = xml_attribute_next none behind (c ∷ t) in
    compile rounds behind scan.rest (prepend scan.attribute done)

abbrev pub text_of : Option Bytes → Bytes
text_of none = []
text_of (some text) = text

abbrev pub compile_type : ElementType → ℕ → Bytes → Option Elements
compile_type element_node behind content = compile (length content) behind content nil
compile_type type behind content = some nil

-- `xml_node_compile`: the attributes of an element that has none yet.
unfoldable pub xml_node_compile : ℕ → Head → Elements → Option Elements
unfolding compile
xml_node_compile behind h nil = compile_type h.type behind (text_of h.content)
xml_node_compile behind h (cons a done) = some (cons a done)

abbrev pub scanned : Option Head → Head
scanned none = blank
scanned (some h) = h

-- The value of the first attribute with this name. Where the scan found none, the name is empty.
unfoldable pub find_key : ℕ → Bytes → Option Bytes → ℕ → Bytes → Option (Option Bytes)
unfolding xml_attribute_next
find_key rounds key reject behind [] = some none
find_key zero key reject behind (c ∷ t) = none
find_key (suc rounds) key reject behind (c ∷ t) =
    let scan = xml_attribute_next reject behind (c ∷ t) in
    let later = find_key rounds key reject behind scan.rest in
    if xml_text_cmp (scanned scan.attribute).name key
    then later
    else some (scanned scan.attribute).content

-- `xml_text_find_key2`
unfoldable pub xml_text_find_key2 : Bytes → ℕ → Bytes → Option Bytes → Option (Option Bytes)
unfolding find_key
xml_text_find_key2 text behind key reject = find_key (length text) key reject behind text
