-- ===== src/Overrides/Types.antt =====
-- internal/overrides/types.go: the rows of the table of overrides.
use tdns.Base.{
  eqb, if◌then◌else◌, eqb_iff, Eq, nat_eq, Text, text_eq, ℕ, ◌≡◌, refl, sym, ap, ◌∙◌, ◌↔◌, Bool,
  true,
}

pub data Kind : Type 0 where
  static_host zen_domain zen_exclude blacklist_host blacklist_exclude : Kind
  cache_enabled cache_exclude dns_log_enabled : Kind
  dns_log_domains_pseudonymized dns_log_clients_pseudonymized : Kind

pub data Op : Type 0 where
  upsert delete_op set_op : Op

pub record Row : Type 0 where
  pub id : ℕ
  pub kind : Kind
  pub op : Op
  pub target : Text
  pub value : Text
  pub created_at : ℕ
  pub updated_at : ℕ

-- The number that the table stores.
abbrev pub kind_number : Kind → ℕ
kind_number static_host = 1
kind_number zen_domain = 2
kind_number zen_exclude = 3
kind_number blacklist_host = 4
kind_number blacklist_exclude = 5
kind_number cache_enabled = 6
kind_number cache_exclude = 7
kind_number dns_log_enabled = 8
kind_number dns_log_domains_pseudonymized = 9
kind_number dns_log_clients_pseudonymized = 10

abbrev kind_of : ℕ → Kind
kind_of n =
    if eqb n 1
    then static_host
    else if eqb n 2
    then zen_domain
    else if eqb n 3
    then zen_exclude
    else if eqb n 4
    then blacklist_host
    else if eqb n 5
    then blacklist_exclude
    else if eqb n 6
    then cache_enabled
    else if eqb n 7
    then cache_exclude
    else if eqb n 8
    then dns_log_enabled
    else if eqb n 9
    then dns_log_domains_pseudonymized
    else dns_log_clients_pseudonymized

kind_of-kind_number : (k : Kind) → kind_of (kind_number k) ≡ k
kind_of-kind_number static_host = refl
kind_of-kind_number zen_domain = refl
kind_of-kind_number zen_exclude = refl
kind_of-kind_number blacklist_host = refl
kind_of-kind_number blacklist_exclude = refl
kind_of-kind_number cache_enabled = refl
kind_of-kind_number cache_exclude = refl
kind_of-kind_number dns_log_enabled = refl
kind_of-kind_number dns_log_domains_pseudonymized = refl
kind_of-kind_number dns_log_clients_pseudonymized = refl

abbrev kind_beq : Kind → Kind → Bool
kind_beq j k = eqb (kind_number j) (kind_number k)

pub kind_beq_iff : (j k : Kind) → (kind_beq j k ≡ true) ↔ (j ≡ k)
kind_beq_iff j k = (
  λ h.
      sym (kind_of-kind_number j)
      ∙ ap kind_of ((eqb_iff (kind_number j) (kind_number k)).0 h)
      ∙ kind_of-kind_number k,
  λ e. (eqb_iff (kind_number j) (kind_number k)).1 (ap kind_number e),
)

instance abbrev pub kind_eq : Eq Kind
kind_eq = record { beq = kind_beq; beq_iff = kind_beq_iff }
