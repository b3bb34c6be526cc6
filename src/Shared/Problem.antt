-- ===== src/Shared/Problem.antt =====
-- The vocabulary of problem details: shared/problem/param.go, type_uri.go and vocab.go.
pub mod Extract
pub mod Response
pub mod JsonPath
pub mod LinePath
mod Tests
use Prim.Native.Char.{code}
use Prim.Native.String.{[] as empty, ◌∷◌ as cons}
use go_ddd_template.Base.{
  String, Bool, true, false, not, ◌&&◌, ◌==◌, none, some, List, [], ◌∷◌, is_empty, concat,
  if◌then◌else◌,
}
use go_ddd_template.Base.Dict.{Dict, lookup}

pub record Param : Type 0 where
  pub name : String
  pub code : String

-- strings.HasPrefix(s, "[")
abbrev pub is_index : String → Bool
is_index empty = false
is_index (cons c s) = code c == 91

-- The body of the loop of JoinPath, on what the builder holds.
abbrev pub add_segment : String → String → String
add_segment b s =
    if is_empty s
    then b
    else if not (is_empty b) && not (is_index s)
    then concat b (concat "." s)
    else concat b s

unfoldable pub join_loop : String → List String → String
join_loop b [] = b
join_loop b (s ∷ segs) = join_loop (add_segment b s) segs

unfoldable pub join_path : List String → String
unfolding join_loop
join_path segs = join_loop "" segs

abbrev pub type_validation_error : String
type_validation_error = "validation-error"

abbrev pub type_unsupported_media_type : String
type_unsupported_media_type = "unsupported-media-type"

abbrev pub type_not_found : String
type_not_found = "not-found"

abbrev pub type_method_not_allowed : String
type_method_not_allowed = "method-not-allowed"

abbrev pub type_invalid_input : String
type_invalid_input = "invalid-input"

abbrev pub type_resource_not_found : String
type_resource_not_found = "resource-not-found"

abbrev pub type_conflict : String
type_conflict = "conflict"

abbrev pub type_reservation_rejected : String
type_reservation_rejected = "reservation-rejected"

abbrev pub type_order_not_confirmed_for_shipment : String
type_order_not_confirmed_for_shipment = "order-not-confirmed-for-shipment"

abbrev pub type_service_unavailable : String
type_service_unavailable = "service-unavailable"

abbrev pub type_internal_error : String
type_internal_error = "internal-error"

abbrev pub detail_validation_error : String
detail_validation_error = "リクエストが API 契約に適合していません"

abbrev pub detail_unsupported_media : String
detail_unsupported_media = "サポートされていないメディアタイプです"

abbrev pub detail_not_found : String
detail_not_found = "要求されたエンドポイントは存在しません"

abbrev pub detail_method_not_allowed : String
detail_method_not_allowed = "このエンドポイントでは許可されていないメソッドです"

abbrev pub detail_resource_not_found : String
detail_resource_not_found = "要求されたリソースは存在しません"

abbrev pub detail_conflict : String
detail_conflict = "現在の状態ではこの操作を実行できません"

abbrev pub detail_invalid_input : String
detail_invalid_input = "入力値がドメインの規則を満たしていません"

abbrev pub detail_order_not_confirmed_for_shipment : String
detail_order_not_confirmed_for_shipment = "注文が確定状態ではないため出荷を準備できません"

abbrev pub detail_internal_error : String
detail_internal_error = "予期しないエラーが発生しました"

abbrev pub titles : Dict String
titles =
    (type_validation_error, "Bad Request")
    ∷ (type_unsupported_media_type, "Unsupported Media Type")
    ∷ (type_not_found, "Not Found")
    ∷ (type_method_not_allowed, "Method Not Allowed")
    ∷ (type_invalid_input, "Unprocessable Entity")
    ∷ (type_resource_not_found, "Resource Not Found")
    ∷ (type_conflict, "Conflict")
    ∷ (type_reservation_rejected, "Reservation Rejected")
    ∷ (type_order_not_confirmed_for_shipment, "Order Not Confirmed For Shipment")
    ∷ (type_service_unavailable, "Service Unavailable")
    ∷ (type_internal_error, "Internal Server Error")
    ∷ []

unfoldable pub title_of : String → String → String
unfolding lookup
title_of suffix fallback = elim (lookup suffix titles) [ none ↦ fallback | some t ↦ t ]

abbrev pub reasons : Dict String
reasons =
    ("required", "必須項目です")
    ∷ ("type", "型が一致しません")
    ∷ ("min_length", "長さが下限を下回っています")
    ∷ ("max_length", "長さが上限を超えています")
    ∷ ("pattern", "形式が正しくありません")
    ∷ ("unique_items", "重複した要素があります")
    ∷ ("invalid_param", "パラメータを解釈できません")
    ∷ ("body_required", "リクエストボディが必要です")
    ∷ ("invalid", "値が不正です")
    ∷ []

-- The last entry of `reasons` is that of CodeInvalid.
unfoldable pub reason_of : String → String
unfolding lookup
reason_of code_text = elim (lookup code_text reasons) [ none ↦ "値が不正です" | some r ↦ r ]
