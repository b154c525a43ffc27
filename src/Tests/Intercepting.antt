-- ===== src/Tests/Intercepting.antt =====
-- The unary interceptor on a concrete call.
use lumberjack.Prelude.{◌≡◌, ◌↔◌, refl, none, []}
use lumberjack.Errors.{ok}
use lumberjack.Api.{fail_close, best_effort}
use lumberjack.Rules.{most_relevant_rule, is_rule_applicable}
use lumberjack.Interceptor.{unary_interceptor}
use lumberjack.Interceptor.Service.{service_name, service_name_iff, IsServiceOf}
use lumberjack.Interceptor.Convert.{
  JsonMap, IsJsonMap, entry, empty_map, json_number, json_list, item, json_null, empty_list,
  of_struct, json_map_to_proto_struct, of_struct-json_map,
}
use lumberjack.Interceptor.Unary.{HandsOn, unary_interceptor-HandsOn}
use lumberjack.Interceptor.FailClose.{IsAudited, unary_interceptor-IsAudited}
use lumberjack.Tests.{structs, texts, intercepting, user, nobody, greet, method, message, a_rule}

unary_interceptor-HandsOn_example :
    HandsOn structs texts (intercepting nobody best_effort) greet [] (
      unary_interceptor structs texts
        (intercepting nobody best_effort)
        greet
        method
        7
        none
        (message "hi")
        [])
unary_interceptor-HandsOn_example =
    unary_interceptor-HandsOn structs texts (intercepting nobody best_effort) greet refl method 7
      none (message "hi") []

unary_interceptor-IsAudited_example :
    IsAudited structs texts (intercepting user fail_close) greet [] (
      unary_interceptor structs texts
        (intercepting user fail_close)
        greet
        method
        7
        none
        (message "hi")
        [])
unfolding most_relevant_rule is_rule_applicable
unary_interceptor-IsAudited_example =
    unary_interceptor-IsAudited structs texts (intercepting user fail_close) greet refl method 7
      none (message "hi") [] a_rule refl

service_name_iff_example : (service_name method ≡ ok "pkg.Talker") ↔ IsServiceOf "pkg.Talker" method
service_name_iff_example = service_name_iff method "pkg.Talker"

abbrev a_map : JsonMap
a_map = entry "a" (json_list (item (json_number 1) (item json_null empty_list))) empty_map

of_struct-json_map_example : of_struct (json_map_to_proto_struct a_map) ≡ a_map
unfolding IsJsonMap
of_struct-json_map_example = of_struct-json_map a_map ((tt, (tt, tt)), tt)
