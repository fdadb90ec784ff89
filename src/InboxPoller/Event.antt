-- ===== src/InboxPoller/Event.antt =====
-- services/email/providers.py: the event of an inbound email, and its payload.
use enterprise_ai_sales_orch.Prelude.{Option}
use enterprise_ai_sales_orch.Prelude.Text.{Text, codes}
use enterprise_ai_sales_orch.Persistence.Value.{text_or_null, text, obj, Fields, end, entry}

pub record InboundEmailEvent : Type 0 where
  pub provider : Text
  pub message_id : Text
  pub thread_id : Option Text
  pub subject : Option Text
  pub body : Option Text
  pub from_email : Text
  pub to_email : Text
  pub received_at : Option Text
  pub from_name : Option Text
  pub internal_id : Option Text
  pub list_unsubscribe : Option Text
  pub precedence : Option Text
  pub auto_response_suppress : Option Text
  pub x_mailer : Option Text
  pub reply_to : Option Text
  pub pre_filter_category : Option Text

-- the headers that `to_payload` collects
unfoldable pub headers_of : InboundEmailEvent → Fields
headers_of e = entry (codes "list_unsubscribe") (text_or_null e.list_unsubscribe) (
    entry (codes "precedence") (text_or_null e.precedence) (
      entry (codes "auto_response_suppress") (text_or_null e.auto_response_suppress) (
        entry (codes "x_mailer") (text_or_null e.x_mailer)
          (entry (codes "reply_to") (text_or_null e.reply_to) end))))

unfoldable pub to_payload : InboundEmailEvent → Fields
unfolding headers_of
to_payload e = entry (codes "provider") (text e.provider) (
    entry (codes "message_id") (text e.message_id) (
      entry (codes "thread_id") (text_or_null e.thread_id) (
        entry (codes "subject") (text_or_null e.subject) (
          entry (codes "body") (text_or_null e.body) (
            entry (codes "from_email") (text e.from_email) (
              entry (codes "to_email") (text e.to_email) (
                entry (codes "received_at") (text_or_null e.received_at) (
                  entry (codes "from_name") (text_or_null e.from_name) (
                    entry (codes "pre_filter_category") (text_or_null e.pre_filter_category) (
                      entry (codes "from") (text e.from_email) (
                        entry (codes "to") (text e.to_email)
                          (entry (codes "headers") (obj (headers_of e)) end))))))))))))
