-- ===== src/Billing/Signature.antt =====
-- modules/billing/billing-payment-signature.ts. HMAC, the trimming of a text and the decoding of
-- hex digits belong to Node and to the language's runtime: they are arguments.
use Prim.Native.String.{◌++◌ as ◌+++◌}
use mib_server.Prelude.{
  String, str_eq, Bool, true, false, Option, none, some, List, length, ℕ, ◌==◌, ◌≡◌, if◌then◌else◌,
  ◌||◌,
}
use mib_server.Billing.Orders.{PaymentProvider}

pub data PaymentCallbackEvent : Type 0 where
  paid refunded : PaymentCallbackEvent

-- dto/payment-callback.dto.ts; `paid_at` is the ISO text.
pub record PaymentCallbackDto : Type 0 where
  pub order_no : String
  pub provider : PaymentProvider
  pub provider_trade_no : String
  pub event : PaymentCallbackEvent
  pub paid_at : Option String

abbrev pub provider_text : PaymentProvider → String
provider_text PaymentProvider.mock = "MOCK"
provider_text PaymentProvider.wechat = "WECHAT"
provider_text PaymentProvider.alipay = "ALIPAY"

abbrev pub event_text : PaymentCallbackEvent → String
event_text PaymentCallbackEvent.paid = "paid"
event_text PaymentCallbackEvent.refunded = "refunded"

abbrev pub text_or_empty : Option String → String
text_or_empty none = ""
text_or_empty (some s) = s

abbrev pub newline : String
newline = "\n"

-- `buildPaymentCallbackSignPayload`
unfoldable pub build_payment_callback_sign_payload : PaymentCallbackDto → String
build_payment_callback_sign_payload d =
    d.order_no
    +++ (newline
        +++ (provider_text d.provider
            +++ (newline
                +++ (d.provider_trade_no
                    +++ (newline
                        +++ (event_text d.event +++ (newline +++ text_or_empty d.paid_at)))))))

-- What the code takes from Node: `createHmac(…).digest('hex')` of a payload under a secret, `trim`,
-- the removal of a leading "sha256=", `Buffer.from(_, 'hex')` and the comparison of two buffers of
-- one length.
pub record Crypto : Type 0 where
  pub sign_payment_callback : String → String → String
  pub trim : String → String
  pub strip_prefix : String → String
  pub from_hex : String → List ℕ
  pub timing_safe_equal : List ℕ → List ℕ → Bool
  pub timing_safe_equal_refl : (a : List ℕ) → timing_safe_equal a a ≡ true
  pub timing_safe_equal_sound : (a b : List ℕ) → timing_safe_equal a b ≡ true → a ≡ b

module _ (crypto : Crypto) where
  -- `verifyPaymentCallbackSignature`
  unfoldable pub verify_payment_callback_signature : String → Option String → String → Bool
  verify_payment_callback_signature payload none secret = false
  verify_payment_callback_signature payload (some signature) secret =
      if str_eq (crypto.trim signature) "" || str_eq secret ""
      then false
      else let a = crypto.from_hex (crypto.strip_prefix (crypto.trim signature)) in
        let b = crypto.from_hex (crypto.sign_payment_callback payload secret) in
        if length a == length b then crypto.timing_safe_equal a b else false
