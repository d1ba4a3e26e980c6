-- ===== src/Protection/Policy.antt =====
-- core/protection/policy.go: the filters of the host block, in decreasing priority. The key of a
-- rule, which names it for the operating system, is left out.
pub mod Traffic
pub mod Verdict
use tenebra.Prelude.{
  ℕ, Bool, true, false, not, ◌&&◌, ◌||◌, List, [], ◌∷◌, ◌++◌, Text, codes, map, ◌==◌, if◌then◌else◌,
}

pub data Layer : Type 0 where
  connect4 connect6 accept4 accept6 : Layer

abbrev pub layers : List Layer
layers = connect4 ∷ connect6 ∷ accept4 ∷ accept6 ∷ []

-- `Outbound`.
unfoldable pub outbound : Layer → Bool
outbound connect4 = true
outbound connect6 = true
outbound _ = false

-- `IPv6`.
unfoldable pub ipv6 : Layer → Bool
ipv6 connect6 = true
ipv6 accept6 = true
ipv6 _ = false

pub data Field : Type 0 where
  loopback interface application protocol local_port remote_port remote_address : Field

abbrev pub core : Text
core = codes "core"

abbrev pub engine : Text
engine = codes "engine"

abbrev pub dhcp : Text
dhcp = codes "dhcp"

pub record Condition : Type 0 where
  pub field : Field
  pub number : ℕ
  pub text : Text

pub record Rule : Type 0 where
  pub layer : Layer
  pub weight : ℕ
  pub permit : Bool
  pub conditions : List Condition

abbrev number_is : Field → ℕ → Condition
number_is f n = record { field = f; number = n; text = [] }

abbrev text_is : Field → Text → Condition
text_is f t = record { field = f; number = 0; text = t }

abbrev rule : Layer → ℕ → Bool → List Condition → Rule
rule l w p c = record { layer = l; weight = w; permit = p; conditions = c }

unfoldable pub tun_rules : Layer → ℕ → List Rule
tun_rules l luid = if luid == 0 then [] else rule l 90 true (number_is interface luid ∷ []) ∷ []

unfoldable pub dns_rules : Layer → List Rule
unfolding outbound
dns_rules l =
    let port = (if outbound l then remote_port else local_port) in
    map (λ proto. rule l 80 false (number_is protocol proto ∷ number_is port 53 ∷ [])) (6 ∷ 17 ∷ [])

unfoldable pub app_rules : Layer → List Rule
app_rules l = map (λ app. rule l 70 true (text_is application app ∷ [])) (core ∷ engine ∷ [])

abbrev pub dhcp_local : Layer → ℕ
dhcp_local l = if ipv6 l then 546 else 68

abbrev pub dhcp_remote : Layer → ℕ
dhcp_remote l = if ipv6 l then 547 else 67

unfoldable pub dhcp_rule : Layer → Rule
unfolding ipv6
dhcp_rule l = rule l 60 true (
    text_is application dhcp
    ∷ number_is protocol 17
    ∷ number_is local_port (dhcp_local l)
    ∷ number_is remote_port (dhcp_remote l)
    ∷ [])

abbrev pub ndp_prefixes : List Text
ndp_prefixes = codes "fe80::/10" ∷ codes "ff02::/16" ∷ []

ndp_type_rules : Layer → ℕ → List Rule
ndp_type_rules l typ =
    map
      (λ prefix. rule l 50 true (
        number_is protocol 58
        ∷ number_is local_port typ
        ∷ number_is remote_port 0
        ∷ text_is remote_address prefix
        ∷ []))
      ndp_prefixes

unfoldable pub ndp_rules : Layer → List Rule
unfolding ipv6 ndp_type_rules
ndp_rules l =
    if ipv6 l
    then ndp_type_rules l 133
      ++ ndp_type_rules l 134
      ++ ndp_type_rules l 135
      ++ ndp_type_rules l 136
    else []

-- The filters of one layer.
unfoldable pub layer_rules : ℕ → Layer → List Rule
unfolding tun_rules dns_rules app_rules dhcp_rule ndp_rules
layer_rules luid l =
    rule l 100 true (number_is loopback 0 ∷ [])
    ∷ (tun_rules l luid
        ++ (dns_rules l
            ++ (app_rules l ++ (dhcp_rule l ∷ (ndp_rules l ++ (rule l 1 false [] ∷ []))))))

concat : List (List Rule) → List Rule
concat [] = []
concat (x ∷ xs) = x ++ concat xs

-- `Policy`.
unfoldable pub policy : ℕ → List Rule
unfolding concat layer_rules
policy luid = concat (map (layer_rules luid) layers)
