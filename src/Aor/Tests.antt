-- ===== src/Aor/Tests.antt =====
-- Contacts of two users and of `*`.
use sipecho.Common.{ℕ, ◌-◌, ◌^◌, arith, some, none, [], ◌∷◌, Ordering, ◌≡◌, refl}
use sipecho.Xml.Text.{Bytes}
use sipecho.Tree.Spec.{IsOrder}
use sipecho.Net.{Url, strcmp_sign, net_port}
use sipecho.Aor.{AorRecord, difference_sign, contact_compare, aor_record_cmp, Plain, plain_cmp}
use sipecho.Aor.Order.{aor_record_cmp-IsOrder}

abbrev no_number : Bytes → ℕ
no_number t = 0

abbrev user : Bytes → Url
user name = record {
  scheme = some (b's' ∷ []);
  username = some name;
  host = some (b'h' ∷ []);
  port = none;
}

-- Two users differ, though both are equal to `*`.
a_before_b : contact_compare no_number (user (b'a' ∷ [])) (user (b'B' ∷ [])) ≡ some Ordering.lt
unfolding contact_compare
a_before_b = refl

a_is_wild : contact_compare no_number (user (b'a' ∷ [])) (user (b'*' ∷ [])) ≡ some Ordering.eq
unfolding contact_compare
a_is_wild = refl

wild_is_b : contact_compare no_number (user (b'*' ∷ [])) (user (b'B' ∷ [])) ≡ some Ordering.eq
unfolding contact_compare
wild_is_b = refl

abbrev contact : Bytes → AorRecord
contact name = record { protocol = some (b'u' ∷ []); url = user name }

-- `;transport` without a value.
null_protocol :
    aor_record_cmp no_number (record { protocol = none; url = user [] }) (contact []) ≡ none
unfolding aor_record_cmp
null_protocol = refl

-- The difference of -2^31 and 1 overflows, that of -1 and 1 does not.
overflows : difference_sign (2 ^ 31) 1 ≡ none
overflows = refl

negative_first : difference_sign (2 ^ 32 - 1) 1 ≡ some Ordering.lt
negative_first = refl

a_contact : Plain no_number
unfolding net_port strcmp_sign
a_contact = record {
  record_of = contact (b'a' ∷ []);
  protocol = b'u' ∷ [];
  scheme = b's' ∷ [];
  host = b'h' ∷ [];
  has_protocol = refl;
  has_scheme = refl;
  has_host = refl;
  not_wild = refl;
  port_small = omega arith;
}

b_contact : Plain no_number
unfolding net_port strcmp_sign
b_contact = record {
  record_of = contact (b'B' ∷ []);
  protocol = b'u' ∷ [];
  scheme = b's' ∷ [];
  host = b'h' ∷ [];
  has_protocol = refl;
  has_scheme = refl;
  has_host = refl;
  not_wild = refl;
  port_small = omega arith;
}

aor_record_cmp-IsOrder_example :
    IsOrder (plain_cmp no_number)
    × (aor_record_cmp no_number a_contact.record_of b_contact.record_of
        ≡ some (plain_cmp no_number a_contact b_contact))
aor_record_cmp-IsOrder_example = aor_record_cmp-IsOrder no_number a_contact b_contact
