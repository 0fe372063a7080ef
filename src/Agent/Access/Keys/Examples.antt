-- ===== src/Agent/Access/Keys/Examples.antt =====
-- A key file with an owner's line, to which a session is added.
use microtensor_compute.Common.{◌≡◌, refl, List, [], ◌∷◌, ◌++◌, some}
use microtensor_compute.Common.Text.{Text, codes}
use microtensor_compute.Agent.Access.Keys.{canonical, grant, revoke, others, key_line}
use microtensor_compute.Agent.Access.Keys.Revoking.{revoke-grant}
use microtensor_compute.Agent.Access.Keys.Canonical.{canonical_idem}

abbrev owner_line : Text
owner_line = codes "ssh-rsa BBBB owner@home"

abbrev file : List Text
file = owner_line ∷ key_line (codes "ssh-rsa CCCC") (codes "s2") ∷ []

abbrev commented : Text
commented = codes " ssh-rsa  AAAA= me@there"

canonical-commented : canonical commented ≡ some (codes "ssh-rsa AAAA=")
unfolding canonical
canonical-commented = refl

canonical_idem_example : canonical (codes "ssh-rsa AAAA=") ≡ some (codes "ssh-rsa AAAA=")
canonical_idem_example = canonical_idem commented (codes "ssh-rsa AAAA=") canonical-commented

abbrev granted_file : List Text
granted_file = file ++ key_line (codes "ssh-rsa AAAA=") (codes "s1") ∷ []

grant-file : grant commented (codes "s1") file ≡ some granted_file
unfolding grant
grant-file = refl

revoke-grant_example : (revoke (codes "s1") granted_file).1 ≡ others (codes "s1") file
revoke-grant_example = revoke-grant commented (codes "s1") file granted_file grant-file
