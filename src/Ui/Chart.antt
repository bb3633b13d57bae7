-- ===== src/Ui/Chart.antt =====
-- components/ui/chart.tsx: which configuration a chart item gets, the style sheet of a chart, and the
-- labels of the tooltip and the legend.
use v.Prelude.{
  String, Bool, true, false, not, ◌||◌, List, [], ◌∷◌, Option, none, some, if◌then◌else◌, ◌===◌,
  ◌<>◌, keep, map,
}
use v.Js.{Value, undefined, str, obj, arr, get, as_string, to_string, or_else}

-- An item of a `ChartConfig`: its texts, and its colour or the colours of the two themes.
pub record ItemConfig : Type 0 where
  pub label : Option String
  pub has_icon : Bool
  pub color : Option String
  pub theme : Option (String × String)

-- `config[key]`
unfoldable pub lookup_config : String → List (String × ItemConfig) → Option ItemConfig
lookup_config key [] = none
lookup_config key ((k, item) ∷ config) =
    let rest = lookup_config key config in if k === key then some item else rest

abbrev or_item : Option ItemConfig → Option ItemConfig → Option ItemConfig
or_item none other = other
or_item (some c) other = some c

abbrev key_or : Option String → Option String → String → String
key_or (some k) nested key = k
key_or none (some k) key = k
key_or none none key = key

-- `payload.payload`, where it is an object.
abbrev nested_payload : Value → Value
nested_payload (obj fs) = obj fs
nested_payload (arr xs) = arr xs
nested_payload _ = undefined

-- `getPayloadConfigFromPayload`: the text that the payload, or the payload in it, has under the key names
-- the item; the key itself names it otherwise.
unfoldable pub payload_config : List (String × ItemConfig) → Value → String → Option ItemConfig
unfolding lookup_config
payload_config config (obj fs) key =
    let own = as_string (get (obj fs) key) in
    let nested = as_string (get (nested_payload (get (obj fs) "payload")) key) in
    or_item (lookup_config (key_or own nested key) config) (lookup_config key config)
payload_config config (arr xs) key = lookup_config key config
payload_config config _ key = none

pub data ChartTheme : Type 0 where
  light dark : ChartTheme

abbrev is_text : Option String → Bool
is_text none = false
is_text (some s) = not (s === "")

abbrev theme_text : ChartTheme → Option (String × String) → Option String
theme_text t none = none
theme_text light (some (l, d)) = some l
theme_text dark (some (l, d)) = some d

abbrev first_text : Option String → Option String → Option String
first_text a b = if is_text a then a else b

-- `itemConfig.theme?.[theme] || itemConfig.color`
unfoldable pub item_color : ChartTheme → ItemConfig → Option String
item_color t item = first_text (theme_text t item.theme) item.color

abbrev has_color : ItemConfig → Bool
has_color item = has_theme item.theme || is_text item.color
  where
    has_theme : Option (String × String) → Bool
    has_theme none = false
    has_theme (some _) = true

abbrev color_line : String → Option String → String
color_line key none = ""
color_line key (some c) = if c === "" then "" else "  --color-" <> key <> ": " <> c <> ";"

abbrev join_lines : List String → String
join_lines [] = ""
join_lines (l ∷ ls) = l <> more ls
  where
    more : List String → String
    more [] = ""
    more (k ∷ ks) = "\n" <> k <> more ks

abbrev prefix_of : ChartTheme → String
prefix_of light = ""
prefix_of dark = ".dark"

abbrev theme_block : String → List (String × ItemConfig) → ChartTheme → String
theme_block id config t =
    "\n"
    <> prefix_of t
    <> " [data-chart="
    <> id
    <> "] {\n"
    <> join_lines (map (λ entry. color_line entry.0 (item_color t entry.1)) config)
    <> "\n}\n"

abbrev style_of : String → List (String × ItemConfig) → Option String
style_of id [] = none
style_of id (c ∷ cs) =
    some (join_lines (theme_block id (c ∷ cs) light ∷ theme_block id (c ∷ cs) dark ∷ []))

-- `ChartStyle`: nothing for a configuration without colours.
unfoldable pub chart_style : String → List (String × ItemConfig) → Option String
unfolding item_color
chart_style id config = style_of id (keep (λ entry. has_color entry.1) config)

abbrev label_of : Option ItemConfig → Option String
label_of none = none
label_of (some c) = c.label

abbrev or_text : Value → Value → Value → String
or_text a b c = to_string (or_else (or_else (or_else a b) c) (str "value"))

abbrev label_text : Option String → String → String
label_text none label = label
label_text (some l) label = if l === "" then label else l

-- The label over a tooltip, without a formatter: none if it is hidden, if there is no item, or if it is
-- empty. `label` is the text given by the chart, if it is a text.
unfoldable pub tooltip_label :
    Bool → Option String → Option String → List (String × ItemConfig) → List Value → Option String
unfolding payload_config
tooltip_label hide label_key label config [] = none
tooltip_label hide label_key label config (item ∷ rest) =
    if hide then none else shown label_key label
  where
    own : Value → Option String
    own key =
        label_of (payload_config config item (or_text key (get item "dataKey") (get item "name")))

    shown : Option String → Option String → Option String
    shown none (some l) = some (label_text (label_of (lookup_config l config)) l)
    shown none none = own undefined
    shown (some k) l = own (str k)

-- The texts of the legend, in order: items of type `none` are left out.
unfoldable pub legend_labels :
    Value → List (String × ItemConfig) → List Value → List (Option String)
unfolding payload_config
legend_labels name_key config items_ =
    map
      (λ item.
        label_of (payload_config config item (or_text name_key (get item "dataKey") undefined)))
      (keep (λ item. not (is_none_type (get item "type"))) items_)
  where
    is_none_type : Value → Bool
    is_none_type (str s) = s === "none"
    is_none_type _ = false
