-- ===== src/Composer/Attachments.antt =====
-- Chat.tsx: `selectAttachments`, and the bounds on what it keeps.
use v.Prelude.{
  ℕ, zero, suc, ◌+◌, ◌-◌, ◌≤◌, ◌<◌, ap, ◌⊎◌, String, Bool, true, false, ◌||◌, ◌&&◌, List, [], ◌∷◌,
  ◌++◌, map, Option, none, some, ◌≡◌, refl, arith, if◌then◌else◌, Text, units, length, take, drop,
  some_of, leb, ltb, ◌==◌, All, length-take, length-append, length-map, Bool-cases, inl, inr,
}
use v.Composer.{Composer, Attachment}

-- A chosen file; its contents are absent where reading it fails.
pub record LocalFile : Type 0 where
  pub name : Text
  pub type : Text
  pub contents : Option Text

abbrev text_eq : Text → Text → Bool
text_eq [] [] = true
text_eq (a ∷ s) (b ∷ t) = a == b && text_eq s t
text_eq _ _ = false

unfoldable pub starts_with : Text → Text → Bool
starts_with s prefix = text_eq (take (length prefix) s) prefix

unfoldable pub ends_with : Text → Text → Bool
ends_with s suffix =
    leb (length suffix) (length s) && text_eq (drop (length s - length suffix) s) suffix

-- The `i` flag: ASCII letters without their case.
abbrev lower : ℕ → ℕ
lower c = if leb b'A' c && leb c b'Z' then c + 32 else c

extensions : List String
extensions =
    "md" ∷ "txt" ∷ "json" ∷ "yaml" ∷ "yml" ∷ "toml" ∷ "xml" ∷ "csv" ∷ "ts" ∷ "tsx" ∷ "js" ∷ "jsx"
    ∷ "py" ∷ "go" ∷ "rs" ∷ "java" ∷ "kt" ∷ "css" ∷ "html" ∷ "sql" ∷ "sh" ∷ []

unfoldable pub is_text_like : LocalFile → Bool
unfolding extensions starts_with ends_with
is_text_like file =
    starts_with file.type (units "text/")
    || some_of (λ ext. ends_with (map lower file.name) (b'.' ∷ units ext)) extensions

abbrev pub excerpt_limit : ℕ
excerpt_limit = 12000

abbrev pub clip_mark : Text
clip_mark = 10 ∷ units "[excerpt clipped locally]"

-- The contents clipped at a limit, marked where something was cut.
unfoldable pub clip_at : ℕ → Text → Text
clip_at limit content =
    let clipped = take limit content in
    if ltb (length clipped) (length content) then clipped ++ clip_mark else clipped

unfoldable pub clip : Text → Text
unfolding clip_at
clip content = clip_at excerpt_limit content

abbrev pub unsupported_file : LocalFile → Attachment
unsupported_file file = record { name = file.name; excerpt = none; unsupported = true }

abbrev read_file : LocalFile → Option Text → Attachment
read_file file none = unsupported_file file
read_file file (some content) = record {
  name = file.name;
  excerpt = some (clip content);
  unsupported = false;
}

unfoldable pub attach : LocalFile → Attachment
unfolding clip
attach file = if is_text_like file then read_file file file.contents else unsupported_file file

-- An empty choice changes nothing; otherwise the first four files replace the attachments.
unfoldable pub select_attachments : List LocalFile → Composer → Composer
select_attachments [] c = c
select_attachments (f ∷ fs) c = record c { attachments = map attach (take 4 (f ∷ fs)) }

-- An attachment that the composer may hold: its excerpt is cut, and an unsupported file has none.
pub data IsClipped : Attachment → Type 0 where
  without : (name : Text) → IsClipped (record { name = name; excerpt = none; unsupported = true })
  excerpted :
      (name content : Text)
      → length content ≤ excerpt_limit + length clip_mark
      → IsClipped (record { name = name; excerpt = some content; unsupported = false })

take_all : (n : ℕ) (s : Text) → length s ≤ n → take n s ≡ s
take_all zero [] h = refl
take_all zero (c ∷ s) h = absurd (omega arith)
take_all (suc n) [] h = refl
take_all (suc n) (c ∷ s) h = ap (λ r. c ∷ r) (take_all n s (omega arith))

length-clip_at :
    (limit : ℕ) (content : Text) → length (clip_at limit content) ≤ limit + length clip_mark
unfolding clip_at
length-clip_at limit content =
    elim (Bool-cases (ltb (length (take limit content)) (length content))) [
      | inl cut ↦
          rw cut
            (omega (arith, length-append (take limit content) clip_mark, length-take limit content))
      | inr whole ↦ rw whole (omega (arith, length-take limit content))
    ]

length-clip : (content : Text) → length (clip content) ≤ excerpt_limit + length clip_mark
unfolding clip
length-clip content = length-clip_at excerpt_limit content

-- Contents that fit are kept whole and unmarked; of others the first part is kept.
clip_at_cases :
    (limit : ℕ) (content : Text)
    → ((length content ≤ limit) × (clip_at limit content ≡ content))
      ⊎ ((limit < length content) × (clip_at limit content ≡ take limit content ++ clip_mark))
unfolding clip_at
clip_at_cases limit content =
    elim (Bool-cases (ltb (length (take limit content)) (length content))) [
      | inl cut ↦ rw cut (inr (ground (arith, length-take limit content), refl))
      | inr whole ↦ rw whole (
          inl (
            ground (arith, length-take limit content),
            take_all limit content (ground (arith, length-take limit content)),
          ))
    ]

-- The excerpt of a text holds all of it when it fits in 12000 code units, and its first 12000 units
-- and the mark otherwise.
pub clip_exact :
    (content : Text)
    → ((length content ≤ excerpt_limit) × (clip content ≡ content))
      ⊎ ((excerpt_limit < length content)
          × (clip content ≡ take excerpt_limit content ++ clip_mark))
unfolding clip
clip_exact content = clip_at_cases excerpt_limit content

read_file-IsClipped :
    (file : LocalFile) (content : Option Text) → IsClipped (read_file file content)
read_file-IsClipped file none = without file.name
read_file-IsClipped file (some content) = excerpted file.name (clip content) (length-clip content)

attach-IsClipped : (file : LocalFile) → IsClipped (attach file)
unfolding attach
attach-IsClipped file = elim (Bool-cases (is_text_like file)) [
  | inl e ↦ rw e (read_file-IsClipped file file.contents)
  | inr e ↦ rw e (without file.name)
]

map-attach-IsClipped : (files : List LocalFile) → All IsClipped (map attach files)
map-attach-IsClipped [] = tt
map-attach-IsClipped (f ∷ fs) = (attach-IsClipped f, map-attach-IsClipped fs)

-- A choice of at least one file leaves one to four attachments, each without an excerpt or with one
-- of at most 12000 code units and the mark; the draft stays.
pub select_attachments_bounded :
    (f : LocalFile) (fs : List LocalFile) (c : Composer)
    → let d = select_attachments (f ∷ fs) c in
      (1 ≤ length d.attachments)
      × (length d.attachments ≤ 4)
      × All IsClipped d.attachments
      × (d.draft ≡ c.draft)
unfolding select_attachments
select_attachments_bounded f fs c =
    let chosen = take 4 (f ∷ fs) in
    (
      omega arith,
      omega (arith, length-map {0, 0} chosen attach, length-take 4 (f ∷ fs)),
      map-attach-IsClipped chosen,
      refl,
    )
