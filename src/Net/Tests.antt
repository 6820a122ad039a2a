-- ===== src/Net/Tests.antt =====
-- The ports of two schemes.
use sipecho.Common.{ℕ, some, none, ◌≡◌, refl}
use sipecho.Xml.Text.{Bytes}
use sipecho.Net.{sip, sips, net_port2}

abbrev no_number : Bytes → ℕ
no_number t = 0

sips_gets_5060 : net_port2 no_number (some sips) none ≡ 5060
unfolding net_port2
sips_gets_5060 = refl

sip_gets_5061 : net_port2 no_number (some sip) none ≡ 5061
unfolding net_port2
sip_gets_5061 = refl
