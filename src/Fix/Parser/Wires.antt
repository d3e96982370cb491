-- ===== src/Fix/Parser/Wires.antt =====
-- Fields on the wire, and a stream of them that is cut somewhere.
use pyfix.Base.{
  ◌≡◌, refl, sym, ap, ◌∙◌, All, List, [], ◌∷◌, ◌++◌, Text, append_assoc, ◌⊎◌, inl, inr, arith,
}
use pyfix.Doctools.Parameters.{IsFree, split-cons, split-free, split-append}
use pyfix.Fix.Message.{soh}
use pyfix.Fix.Parser.{join_parts, pop_last, pop_bits, take_bits}

-- No byte of a field is SOH.
abbrev pub IsField : Text → Type 0
IsField x = IsFree soh x

-- A text whose continuation is a field and more: it ends within the field, or it has the field.
cut_off :
    (x b z w : Text)
    → IsField x
    → b ++ z ≡ x ++ soh ∷ w
    → IsField b ⊎ ((c : Text) × (b ≡ x ++ soh ∷ c) × (c ++ z ≡ w))
cut_off x [] z w h e = inl refl
cut_off [] (y ∷ b) z w h e = inr (b, ground arith, ground arith)
cut_off (v ∷ x) (y ∷ b) z w h e = elim (cut_off x b z w (ground arith) (ground arith)) [
  | inl free ↦ inl (ground arith)
  | inr (c, p, q) ↦ inr (c, ground arith, q)
]

-- What `take_bits` finds in a piece of a stream of fields.
pub record Cut (b z : Text) (us : List Text) : Type 0 where
  pub done : List Text
  pub rest : Text
  pub more : List Text
  pub taken : take_bits b ≡ (done, rest)
  pub fields : us ≡ done ++ more
  pub open_part : rest ++ z ≡ join_parts more
  pub is_field : IsField rest
  pub text : b ≡ join_parts done ++ rest

take_bits-free : (b : Text) → IsField b → take_bits b ≡ ([], b)
unfolding take_bits pop_last
take_bits-free b h = ap pop_bits (split-free soh b h)

take_bits-append :
    (x b : Text) (done : List Text) (rest : Text)
    → IsField x
    → take_bits b ≡ (done, rest)
    → take_bits (x ++ soh ∷ b) ≡ (x ∷ done, rest)
unfolding take_bits pop_last
take_bits-append x b done rest h e =
    let (p, ps, parts) = split-cons soh b in
    ap pop_bits (split-append soh x b h)
    ∙ ap (λ ys. pop_bits (x ∷ ys)) parts
    ∙ ap (λ (t : List Text × Text). (x ∷ t.0, t.1)) (ap pop_bits (sym parts) ∙ e)

cut-nil : (b z : Text) → b ++ z ≡ [] → b ≡ []
cut-nil [] z h = refl
cut-nil (x ∷ b) z h = cc

pub Cut-stream :
    (us : List Text) (b z : Text) → All IsField us → b ++ z ≡ join_parts us → Cut b z us
Cut-stream [] b z h e =
    let none_left = cut-nil b z e in
    record {
      done = [];
      rest = [];
      more = [];
      taken = ap take_bits none_left ∙ take_bits-free [] refl;
      fields = refl;
      open_part = ap (λ t. t ++ z) (sym none_left) ∙ e;
      is_field = refl;
      text = none_left;
    }
Cut-stream (u ∷ us) b z (h, hs) e = elim (cut_off u b z (join_parts us) h e) [
  | inl free ↦ record {
    done = [];
    rest = b;
    more = u ∷ us;
    taken = take_bits-free b free;
    fields = refl;
    open_part = e;
    is_field = free;
    text = refl;
  }
  | inr (c, p, q) ↦
      let ih = Cut-stream us c z hs q in
      record {
        done = u ∷ ih.done;
        rest = ih.rest;
        more = ih.more;
        taken = ap take_bits p ∙ take_bits-append u c ih.done ih.rest h ih.taken;
        fields = ap (u ∷◌) ih.fields;
        open_part = ih.open_part;
        is_field = ih.is_field;
        text =
            p
            ∙ ap (λ t. u ++ soh ∷ t) ih.text
            ∙ sym (append_assoc u (soh ∷ join_parts ih.done) ih.rest);
      }
]
