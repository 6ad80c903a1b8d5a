-- ===== src/Sdk/Scaffold/Names.antt =====
-- sdk/scaffold/scaffold.go: the names of the package and of the type.
use aethercore.Prelude.{◌≡◌, refl, ap, arith, ℕ, true, false, List, [], ◌∷◌, ◌++◌, map}
use aethercore.Prelude.Text.{Text, split}
use aethercore.Sdk.Scaffold.Config.{
  Unicode, Config, template_data, without, to_package_name, type_name_from, to_go_type_name,
}

-- The texts one behind the other.
abbrev pub join : List Text → Text
join [] = []
join (p ∷ ps) = p ++ join ps

-- The first letter as a capital.
abbrev pub capitalise : Unicode → Text → Text
capitalise unicode [] = []
capitalise unicode (c ∷ s) = unicode.to_upper c ∷ s

without-split : (sep : ℕ) (s : Text) → without sep s ≡ join (split sep s)
unfolding without split
without-split sep [] = refl
without-split sep (c ∷ s) = ground (arith, without-split sep s)

module _ (unicode : Unicode) where
  -- Inside a part only the parts behind it are capitalised.
  abbrev inner : List Text → Text
  inner [] = []
  inner (p ∷ ps) = p ++ join (map (capitalise unicode) ps)

  type_name_from-split :
      (s : Text)
      → (type_name_from unicode true s ≡ join (map (capitalise unicode) (split b'-' s)))
        × (type_name_from unicode false s ≡ inner (split b'-' s))
  unfolding type_name_from split
  type_name_from-split [] = (refl, refl)
  type_name_from-split (c ∷ s) = ground (arith, type_name_from-split s)

  -- The names of a module are made of the parts of its name between the dashes: that of the type
  -- joins them with a capital first letter each, that of the package joins them in lower case.
  pub template_data_lem :
      (cfg : Config)
      → ((template_data unicode cfg).go_type_name
          ≡ join (map (capitalise unicode) (split b'-' cfg.module_name)))
        × ((template_data unicode cfg).package_name
            ≡ map unicode.to_lower (join (split b'-' cfg.module_name)))
  unfolding template_data to_go_type_name to_package_name
  template_data_lem cfg = (
    (type_name_from-split cfg.module_name).0,
    ap (map unicode.to_lower) (without-split b'-' cfg.module_name),
  )
