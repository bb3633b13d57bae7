-- ===== src/Composer/Budget.antt =====
-- Chat.tsx: what `submit` sends fits the request, and never cuts what the user wrote.
use v.Prelude.{
  ℕ, ◌-◌, ◌≤◌, Bool, false, ◌||◌, [], ◌++◌, some, ◌≡◌, refl, arith, Text, is_blank, length, take,
  max, length-append, length-take, Bool-cases, inl, inr, sym, ◌∙◌, some,
}
use mathlib.Core.Option.{some-injective, none-ne-some}
use mathlib.Core.Path.{subst}
use v.Composer.{Composer, submit, outgoing, fit, context_limit, attachment_context}

length-fit :
    (limit : ℕ) (draft context : Text) → length (fit limit draft context) ≤ max limit (length draft)
unfolding fit
length-fit limit draft context = omega (
  arith,
  length-append draft (take (limit - length draft) context),
  length-take (limit - length draft) context,
)

length-outgoing : (c : Composer) → length (outgoing c) ≤ max context_limit (length c.draft)
unfolding outgoing
length-outgoing c = length-fit context_limit c.draft (attachment_context c.attachments)

context_room : Composer → Text
context_room c = take (context_limit - length c.draft) (attachment_context c.attachments)

outgoing-eq-append : (c : Composer) → outgoing c ≡ c.draft ++ context_room c
unfolding outgoing context_room
outgoing-eq-append c = refl

-- A submitted text starts with the whole draft, has at most 18000 code units unless the draft alone
-- has more, and then adds nothing to it; the draft and the attachments are cleared, and nothing was
-- sent while loading or with a blank draft.
pub submit_fits :
    (loading : Bool) (c : Composer) (sent : Text)
    → (submit loading c).0 ≡ some sent
    → (loading ≡ false)
      × (is_blank c.draft ≡ false)
      × (length sent ≤ max context_limit (length c.draft))
      × ((rest : Text) × (sent ≡ c.draft ++ rest))
      × ((submit loading c).1.draft ≡ [])
      × ((submit loading c).1.attachments ≡ [])
unfolding submit
submit_fits loading c sent h = elim (Bool-cases (is_blank c.draft || loading)) [
  | inl refused ↦ absurd (none-ne-some sent (rw refused at h))
  | inr passes ↦
      let e : outgoing c ≡ sent = some-injective _ _ (rw passes at h) in
      let room : Text = context_room c in
      rw passes (
        ground arith,
        ground arith,
        subst (λ (t : Text). length t ≤ max context_limit (length c.draft)) e (length-outgoing c),
        (room, sym e ∙ outgoing-eq-append c),
        refl,
        refl,
      )
]
