-- ===== src/Upgrade/Platform/Order.antt =====
-- How far the order in which Go visits the aliases matters.
use navmesh_go.Base.{
  ◌≡◌, ◌∙◌, sym, refl, ap, Bool, true, [], ◌∷◌, arith, all, any, all-Perm, any-Perm, if◌then◌else◌,
  Permᴰ,
}
use navmesh_go.Base.Text.{Text, eq_text, eq_text_iff, trim_space, to_lower}
use navmesh_go.Base.Assoc.{Assoc, lookup}
use navmesh_go.Upgrade.Platform.{
  aliases, spaced, platform_name_contains_token, first_alias, or_else, normalize_platform_name,
}

-- Every alias that is a token of the name stands for `target`.
abbrev pub agree : Text → Text → Assoc Text → Bool
agree name target order =
    all (λ e. if platform_name_contains_token name e.0 then eq_text e.1 target else true) order

-- Some alias is a token of the name.
abbrev pub has_alias : Text → Assoc Text → Bool
has_alias name order = any (λ e. platform_name_contains_token name e.0) order

first_alias-agree :
    (name target : Text) (order : Assoc Text)
    → agree name target order ≡ true
    → first_alias name order ≡ (if has_alias name order then target else name)
unfolding first_alias
first_alias-agree name target [] h = refl
first_alias-agree name target ((alias, normalized) ∷ rest) h =
    ground (arith, first_alias-agree name target rest, eq_text_iff normalized target)

-- A name whose aliases agree is normalized alike in any two orders of the aliases.
pub normalize_any_order :
    (value target : Text) {order order' : Assoc Text}
    → Permᴰ order aliases
    → Permᴰ order' aliases
    → agree (spaced (to_lower (trim_space value))) target aliases ≡ true
    → normalize_platform_name order value ≡ normalize_platform_name order' value
unfolding normalize_platform_name
normalize_any_order value target {order} {order'} d d' h =
    let raw = to_lower (trim_space value) in
    let name = spaced raw in
    ap (λ t. or_else (lookup raw aliases) (or_else (lookup name aliases) t))
      (first_alias-agree name target order (all-Perm _ d ∙ h)
        ∙ ap (λ b. if b then target else name) (any-Perm _ d ∙ sym (any-Perm _ d'))
        ∙ sym (first_alias-agree name target order' (all-Perm _ d' ∙ h)))
