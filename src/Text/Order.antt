-- ===== src/Text/Order.antt =====
-- `text_less` is a strict order, so texts can be sorted by it.
use xray_exporter.Common.{◌≡◌, refl, true, false, [], ◌∷◌, arith}
use xray_exporter.Common.Sort.{Order}
use xray_exporter.Text.{Text, text_less}

text_less_asym : (a b : Text) → text_less a b ≡ true → text_less b a ≡ false
unfolding text_less
text_less_asym [] [] h = refl
text_less_asym [] (y ∷ b) h = refl
text_less_asym (x ∷ a) [] h = ground arith
text_less_asym (x ∷ a) (y ∷ b) h = ground (arith, text_less_asym a b)

text_less_trans :
    (a b c : Text) → text_less b a ≡ false → text_less c b ≡ false → text_less c a ≡ false
unfolding text_less
text_less_trans [] b c h k = refl
text_less_trans (x ∷ a) [] c h k = ground arith
text_less_trans (x ∷ a) (y ∷ b) [] h k = ground arith
text_less_trans (x ∷ a) (y ∷ b) (z ∷ c) h k = ground (arith, text_less_trans a b c)

pub text_less-Order : Order text_less
text_less-Order = record { asym = text_less_asym; trans = text_less_trans }
