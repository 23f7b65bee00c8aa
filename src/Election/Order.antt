-- ===== src/Election/Order.antt =====
-- The order of the elections.
use route_prism.Common.{
  ◌≡◌, true, false, arith, str_ltb_irrefl, str_ltb_trans, str_ltb_total, str_ltb_asymm,
}
use route_prism.Common.Strict.{not_below_trans}
use route_prism.Kube.Types.{ContextRoute, older}

pub older_irrefl : (a : ContextRoute) → older a a ≡ false
unfolding older
older_irrefl a = ground (arith, str_ltb_irrefl a.name)

pub older_trans : (a b c : ContextRoute) → older a b ≡ true → older b c ≡ true → older a c ≡ true
unfolding older
older_trans a b c h k = ground (arith, str_ltb_trans a.name b.name c.name)

pub older_asymm : (a b : ContextRoute) → older a b ≡ true → older b a ≡ false
unfolding older
older_asymm a b h = ground (arith, str_ltb_asymm a.name b.name)

pub not_older_trans :
    (a b c : ContextRoute) → older b a ≡ false → older c b ≡ false → older c a ≡ false
unfolding older
not_older_trans a b c h k = ground (arith, not_below_trans a.name b.name c.name)

-- Neither is older than the other: they were created together and have one name.
pub older_total :
    (a b : ContextRoute)
    → older a b ≡ false
    → older b a ≡ false
    → (a.creation ≡ b.creation) × (a.name ≡ b.name)
unfolding older
older_total a b h k = ground (arith, str_ltb_total a.name b.name)
