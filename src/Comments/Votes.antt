-- ===== src/Comments/Votes.antt =====
-- The rating, the own vote and the arrows of a comment, over any clicks on its visible arrows.
use pyfix.Base.{
  ℕ, zero, suc, ◌≡◌, refl, sym, ap, ◌∙◌, subst, ◌⊎◌, inl, inr, Bool, true, false, ◌==◌, arith,
  if◌then◌else◌,
}
use pyfix.Base.Int.{ℤ, pos, negsuc, ◌+ℤ◌, ◌-ℤ◌, add_sub_sub}
use pyfix.Comments.{
  Comment, Arrows, Shown, set_arrow, is_zero, int_eq, first_arrows, vote_value, rate, vote_on,
}

-- Whether the link with these letters is visible.
abbrev pub is_visible : ℕ → ℕ → Arrows → Bool
is_visible a b r =
    if a == b'u'
    then (if b == b'v' then r.uv else if b == b'u' then r.uu else false)
    else if a == b'd'
    then (if b == b'v' then r.dv else if b == b'u' then r.du else false)
    else false

-- The votes of a reader, and the links.
pub data Own : Type 0 where
  not_yet up down : Own

abbrev pub number : Own → ℤ
number not_yet = pos 0
number up = pos 1
number down = negsuc 0

data Link : Type 0 where
  vote_up unvote_up vote_down unvote_down : Link

abbrev first_letter : Link → ℕ
first_letter vote_up = b'u'
first_letter unvote_up = b'u'
first_letter vote_down = b'd'
first_letter unvote_down = b'd'

abbrev second_letter : Link → ℕ
second_letter vote_up = b'v'
second_letter unvote_up = b'u'
second_letter vote_down = b'v'
second_letter unvote_down = b'u'

-- What the click on a visible link makes of the vote.
abbrev next_vote : Link → Own
next_vote vote_up = up
next_vote unvote_up = not_yet
next_vote vote_down = down
next_vote unvote_down = not_yet

-- The vote is none, up or down, and the arrows show it.
abbrev pub IsConsistent : Shown → Type 0
IsConsistent s = (k : Own) × (s.comment.vote ≡ number k) × (s.arrows ≡ first_arrows s.comment.vote)

-- Clicks on visible arrows, one after the other.
pub data Clicks : Shown → Shown → Type 0 where
  no_click : {s : Shown} → Clicks s s
  click :
      {s t : Shown} (a b : ℕ)
      → is_visible a b s.arrows ≡ true
      → Clicks (vote_on a b s) t
      → Clicks s t

sub_zero : (v : ℤ) → v -ℤ pos 0 ≡ v
unfolding ◌-ℤ◌
sub_zero (pos n) = ground arith
sub_zero (negsuc n) = ground arith

amount : (u v : ℤ) → (if is_zero u then v else v -ℤ u) ≡ v -ℤ u
unfolding is_zero
amount (pos zero) v = sym (sub_zero v)
amount (pos (suc n)) v = refl
amount (negsuc n) v = refl

rate-rating : (v : ℤ) (c : Comment) → (rate v c).rating -ℤ (rate v c).vote ≡ c.rating -ℤ c.vote
unfolding rate
rate-rating v c = ap (λ d. (c.rating +ℤ d) -ℤ v) (amount c.vote v) ∙ add_sub_sub c.rating c.vote v

-- The links, for the arrows of each vote.
clicked :
    (l : Link) (k : Own) (s : Shown)
    → is_visible (first_letter l) (second_letter l) (first_arrows (number k)) ≡ true
    → s.comment.vote ≡ number k
    → s.arrows ≡ first_arrows (number k)
    → ((vote_on (first_letter l) (second_letter l) s).arrows ≡ first_arrows (number (next_vote l)))
      × ((vote_on (first_letter l) (second_letter l) s).comment.vote ≡ number (next_vote l))
unfolding vote_on rate set_arrow vote_value is_zero int_eq first_arrows ◌-ℤ◌
clicked vote_up not_yet s h e f = rw (e, f) (refl, refl)
clicked vote_up up s h e f = absurd (cc)
clicked vote_up down s h e f = rw e (refl, refl)
clicked unvote_up not_yet s h e f = absurd (cc)
clicked unvote_up up s h e f = rw f (refl, refl)
clicked unvote_up down s h e f = absurd (cc)
clicked vote_down not_yet s h e f = rw (e, f) (refl, refl)
clicked vote_down up s h e f = rw e (refl, refl)
clicked vote_down down s h e f = absurd (cc)
clicked unvote_down not_yet s h e f = absurd (cc)
clicked unvote_down up s h e f = absurd (cc)
clicked unvote_down down s h e f = rw f (refl, refl)

visible-cases :
    (a b : ℕ) (r : Arrows)
    → is_visible a b r ≡ true
    → ((a ≡ b'u') × (b ≡ b'v'))
      ⊎ ((a ≡ b'u') × (b ≡ b'u'))
      ⊎ ((a ≡ b'd') × (b ≡ b'v'))
      ⊎ ((a ≡ b'd') × (b ≡ b'u'))
visible-cases a b r h = ground arith

link_of :
    (a b : ℕ) (r : Arrows)
    → is_visible a b r ≡ true
    → (l : Link) × (a ≡ first_letter l) × (b ≡ second_letter l)
link_of a b r h = elim (visible-cases a b r h) [
  | inl e ↦ (vote_up, e.0, e.1)
  | inr (inl e) ↦ (unvote_up, e.0, e.1)
  | inr (inr (inl e)) ↦ (vote_down, e.0, e.1)
  | inr (inr (inr e)) ↦ (unvote_down, e.0, e.1)
]

vote_on-IsConsistent :
    (a b : ℕ) (s : Shown)
    → IsConsistent s
    → is_visible a b s.arrows ≡ true
    → IsConsistent (vote_on a b s)
vote_on-IsConsistent a b s (k, vote, arrows) h =
    let (l, e, f) = link_of a b s.arrows h in
    let shown : s.arrows ≡ first_arrows (number k) = arrows ∙ ap first_arrows vote in
    let seen : is_visible (first_letter l) (second_letter l) (first_arrows (number k)) ≡ true =
      ap (λ (r : Arrows). is_visible (first_letter l) (second_letter l) r) (sym shown)
      ∙ ap (λ a. is_visible a (second_letter l) s.arrows) (sym e)
      ∙ ap (λ b. is_visible a b s.arrows) (sym f)
      ∙ h in
    let (now, chosen) = clicked l k s seen vote shown in
    subst (λ b. IsConsistent (vote_on a b s)) (sym f)
      (subst (λ a. IsConsistent (vote_on a (second_letter l) s)) (sym e)
        (next_vote l, chosen, now ∙ ap first_arrows (sym chosen)))

vote_on-rating :
    (a b : ℕ) (s : Shown)
    → (vote_on a b s).comment.rating -ℤ (vote_on a b s).comment.vote
      ≡ s.comment.rating -ℤ s.comment.vote
unfolding vote_on
vote_on-rating a b s = rate-rating (vote_value a b) s.comment

-- Whatever visible arrows are clicked: the arrows keep showing the vote of the reader, which stays
-- none, up or down, and the rating without this vote stays the same.
pub Clicks-IsConsistent :
    (s t : Shown)
    → IsConsistent s
    → Clicks s t
    → IsConsistent t × (t.comment.rating -ℤ t.comment.vote ≡ s.comment.rating -ℤ s.comment.vote)
Clicks-IsConsistent s t h no_click = (h, refl)
Clicks-IsConsistent s t h (click a b seen clicks) =
    let (consistent, same) = Clicks-IsConsistent _ t (vote_on-IsConsistent a b s h seen) clicks in
    (consistent, same ∙ vote_on-rating a b s)
