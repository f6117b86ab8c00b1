-- ===== src/Utils.antt =====
-- pkg/utils/utils.go: the defaults of the plugin's configuration, and the test by which the daemon
-- tells whether it runs on a virtual machine. A Go string is read as the list of its bytes there.
pub mod Uuid
mod Tests
use rubble.Prelude.{
  ℕ, zero, suc, ◌-◌, ◌+◌, ◌≤◌, ◌<◌, String, Bool, true, false, ◌&&◌, ◌||◌, ◌≡◌, refl, sym, ap, ◌∙◌,
  inl, inr, Option, none, some, List, [], ◌∷◌, str_eq, arith, leb, ◌==◌, if◌then◌else◌, length,
  Bool-cases, lt→leb, le→leb, leb→lt, leb→le,
}

-- The fields of NetConf and K8sArgs that have defaults.
pub record NetConf : Type 0 where
  pub cni_version : String
  pub master : String
  pub mode : String
  pub mtu : ℕ
  pub default_route : Bool

-- The fields of NodeInfo that the daemon reads.
pub record NodeInfo : Type 0 where
  pub uuid : String
  pub name : String

abbrev pub default_ip_vlan_route : Bool
default_ip_vlan_route = true

unfoldable pub get_ip_vlan_master : NetConf → String
get_ip_vlan_master conf = if str_eq conf.master "" then "eth0" else conf.master

unfoldable pub get_ip_vlan_mode : NetConf → String
get_ip_vlan_mode conf = if str_eq conf.mode "" then "l2" else conf.mode

unfoldable pub get_ip_vlan_default_route : NetConf → Bool
get_ip_vlan_default_route conf = conf.default_route || default_ip_vlan_route

unfoldable pub get_service_cidr : String → String
get_service_cidr k8s_service_cidr =
    if str_eq k8s_service_cidr "" then "10.222.0.0/16" else k8s_service_cidr

-- `s[n:]`, for an `n` within the string, and `==` on strings.
unfoldable pub slice_from : ℕ → List ℕ → List ℕ
slice_from zero s = s
slice_from (suc n) [] = []
slice_from (suc n) (b ∷ s) = slice_from n s

unfoldable pub bytes_eq : List ℕ → List ℕ → Bool
bytes_eq [] [] = true
bytes_eq (b ∷ s) (c ∷ t) = let rest = bytes_eq s t in if b == c then rest else false
bytes_eq _ _ = false

unfoldable pub contains_substring : List ℕ → List ℕ → Bool
contains_substring s substr =
    leb (length substr) (length s) && bytes_eq (slice_from (length s - length substr) s) substr

-- IfRuningOnVM, by what the two files hold.
unfoldable pub if_runing_on_vm : Option (List ℕ) → Option (List ℕ) → List ℕ → Bool
if_runing_on_vm none cpuinfo hypervisor = false
if_runing_on_vm (some _) none hypervisor = false
if_runing_on_vm (some _) (some cpuinfo) hypervisor = contains_substring cpuinfo hypervisor

-- Whether the string ends with the other.
abbrev pub ends_with : List ℕ → List ℕ → Bool
ends_with [] substr = bytes_eq [] substr
ends_with (b ∷ s) substr = bytes_eq (b ∷ s) substr || ends_with s substr

bytes_eq-length : (s t : List ℕ) → bytes_eq s t ≡ true → length s ≡ length t
unfolding bytes_eq
bytes_eq-length [] [] e = refl
bytes_eq-length [] (c ∷ t) e = absurd (ground arith)
bytes_eq-length (b ∷ s) [] e = absurd (ground arith)
bytes_eq-length (b ∷ s) (c ∷ t) e = ap suc (bytes_eq-length s t (ground arith))

ends_with-length : (s substr : List ℕ) → ends_with s substr ≡ true → length substr ≤ length s
ends_with-length [] substr e = omega (arith, bytes_eq-length [] substr e)
ends_with-length (b ∷ s) substr e = elim (Bool-cases (bytes_eq (b ∷ s) substr)) [
  | inl same ↦ omega (arith, bytes_eq-length (b ∷ s) substr same)
  | inr other ↦ omega (arith, ends_with-length s substr (ground arith))
]

-- Strings of different lengths differ.
apart_length : (s t : List ℕ) → length s < length t → bytes_eq s t ≡ false
apart_length s t short = elim (Bool-cases (bytes_eq s t)) [
  | inl same ↦ absurd (omega (arith, bytes_eq-length s t same))
  | inr other ↦ other
]

longer_apart : (s t : List ℕ) → length t < length s → bytes_eq s t ≡ false
longer_apart s t long = elim (Bool-cases (bytes_eq s t)) [
  | inl same ↦ absurd (omega (arith, bytes_eq-length s t same))
  | inr other ↦ other
]

no_end : (s substr : List ℕ) → length s < length substr → ends_with s substr ≡ false
no_end s substr short = elim (Bool-cases (ends_with s substr)) [
  | inl e ↦ absurd (omega (arith, ends_with-length s substr e))
  | inr e ↦ e
]

contains_longer :
    (b : ℕ) (s substr : List ℕ)
    → length substr ≤ length s
    → contains_substring (b ∷ s) substr ≡ contains_substring s substr
unfolding contains_substring slice_from
contains_longer b s substr fits =
    let one_more : suc (length s) - length substr ≡ suc (length s - length substr) = omega arith in
    rw
      (
        one_more,
        le→leb (length substr) (length s) fits,
        le→leb (length substr) (suc (length s)) (omega arith),
      )
      refl

contains_whole :
    (b : ℕ) (s substr : List ℕ)
    → length s < length substr
    → contains_substring (b ∷ s) substr ≡ bytes_eq (b ∷ s) substr
unfolding contains_substring slice_from
contains_whole b s substr short = elim (Bool-cases (leb (length substr) (suc (length s)))) [
  | inl fits ↦
      let none_left : suc (length s) - length substr ≡ 0 = omega (arith, leb→le _ _ fits) in
      rw (none_left, fits) refl
  | inr long ↦ rw long (sym (apart_length (b ∷ s) substr (omega (arith, leb→lt _ _ long))))
]

-- containsSubstring answers whether the string ends with the substring.
pub contains_substring-ends_with :
    (s substr : List ℕ) → contains_substring s substr ≡ ends_with s substr
unfolding contains_substring slice_from
contains_substring-ends_with [] [] = refl
contains_substring-ends_with [] (c ∷ substr) =
    rw (lt→leb (length (c ∷ substr)) 0 (omega arith))
      (sym (apart_length [] (c ∷ substr) (omega arith)))
contains_substring-ends_with (b ∷ s) substr = elim (Bool-cases (leb (length substr) (length s))) [
  | inl fits ↦
      contains_longer b s substr (leb→le _ _ fits)
      ∙ contains_substring-ends_with s substr
      ∙ rw (longer_apart (b ∷ s) substr (omega (arith, leb→le _ _ fits))) refl
  | inr short ↦
      contains_whole b s substr (leb→lt _ _ short)
      ∙ rw (no_end s substr (leb→lt _ _ short))
          (elim (Bool-cases (bytes_eq (b ∷ s) substr)) [ inl e ↦ rw e refl | inr e ↦ rw e refl ])
]
