-- ===== src/Versions/Tests.antt =====
-- core/versions.py: the pairs that its docstring names, and the theorems there.
use whatfrom.Prelude.{◌≡◌, refl, true, false}
use whatfrom.Prelude.Text.{codes}
use whatfrom.Versions.{extends_version}
use whatfrom.Versions.Order.{Extends, extends_version_iff}

continues : extends_version (codes "21.0.12") (codes "21.0.12_8") ≡ true
unfolding extends_version
continues = refl

breaks_off : extends_version (codes "3.1") (codes "3.14.7") ≡ false
unfolding extends_version
breaks_off = refl

extends_version_iff_example : Extends (codes "8") (codes "8u502")
unfolding extends_version
extends_version_iff_example = (extends_version_iff (codes "8") (codes "8u502")).0 refl
