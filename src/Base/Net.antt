-- ===== src/Base/Net.antt =====
-- Package net: SplitHostPort.
use Prim.Native.Nat.{ℕ}
use mathlib.Core.Path.{◌≡◌, refl}
use mathlib.Core.Bool.{Bool, ◌||◌}
use mathlib.Core.Option.{Option, none, some}
use mathlib.Core.List.{[], ◌∷◌}
use navmesh_go.Base.Tests.{◌==◌, if◌then◌else◌}
use navmesh_go.Base.Lists.{any}
use navmesh_go.Base.Text.{Text, codes}

-- strings.IndexByte(s, c) >= 0
unfoldable pub has : ℕ → Text → Bool
has c s = any (λ d. d == c) s

-- The text before and after the first `c`, if there is one.
abbrev put_before : ℕ → Option (Text × Text) → Option (Text × Text)
put_before d none = none
put_before d (some (before, after)) = some (d ∷ before, after)

unfoldable pub cut : ℕ → Text → Option (Text × Text)
cut c [] = none
cut c (d ∷ s) = let rest = cut c s in if d == c then some ([], s) else put_before d rest

-- A port, which is the text after the last colon and has no brackets.
abbrev port_of : Text → Text → Option (Text × Text)
port_of host port =
    if has b':' port || has b'[' port || has b']' port then none else some (host, port)

-- What follows the bracket that closes the host is a colon and the port.
abbrev after_bracket : Text → Text → Option (Text × Text)
after_bracket host [] = none
after_bracket host (c ∷ port) =
    if c == b':' then if has b'[' host then none else port_of host port else none

abbrev bracketed : Option (Text × Text) → Option (Text × Text)
bracketed none = none
bracketed (some (host, after)) = after_bracket host after

abbrev plain : Option (Text × Text) → Option (Text × Text)
plain none = none
plain (some (host, port)) = if has b'[' host || has b']' host then none else port_of host port

-- host, port, err := net.SplitHostPort(s); none for an error
unfoldable pub split_host_port : Text → Option (Text × Text)
unfolding cut has
split_host_port [] = none
split_host_port (c ∷ s) = if c == b'[' then bracketed (cut b']' s) else plain (cut b':' (c ∷ s))

split_test : split_host_port (codes "[::1]:80") ≡ some (codes "::1", codes "80")
unfolding split_host_port
split_test = refl
