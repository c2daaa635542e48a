-- ===== src/Subcontrollers/FeProxy/Nginx.antt =====
-- The configuration of nginx that the FE proxy runs with: the text in
-- pkg/subcontrollers/feproxy/feproxy_configmap.go.
use starrocks_kubernetes_ope.Base.{String, List, [], ◌∷◌, ◌<>◌}

concat : List String → String
concat [] = ""
concat (t ∷ ts) = t <> concat ts

-- The settings of the server and the health check.
http_settings : (resolver : String) → String
unfolding concat
http_settings resolver = concat (
    "\n" ∷ "pid   /tmp/nginx.pid;\n" ∷ "worker_processes 4;\n"
    ∷ "include /usr/share/nginx/modules/*.conf;\n" ∷ "events {\n" ∷ "  worker_connections 256;\n"
    ∷ "}\n" ∷ "\n" ∷ "http {\n" ∷ "  sendfile            on;\n" ∷ "  tcp_nopush          on;\n"
    ∷ "  tcp_nodelay         on;\n" ∷ "  keepalive_timeout   65;\n"
    ∷ "  types_hash_max_size 2048;\n" ∷ "  client_max_body_size 0;\n"
    ∷ "  ignore_invalid_headers off;\n" ∷ "  underscores_in_headers on;\n"
    ∷ "  proxy_read_timeout 600s;\n" ∷ "  proxy_http_version 1.1;\n" ∷ "\n"
    ∷ "  client_body_temp_path /tmp/client_temp;\n"
    ∷ "  proxy_temp_path       /tmp/proxy_temp_path;\n"
    ∷ "  fastcgi_temp_path     /tmp/fastcgi_temp;\n" ∷ "  uwsgi_temp_path       /tmp/uwsgi_temp;\n"
    ∷ "  scgi_temp_path        /tmp/scgi_temp;\n" ∷ "\n"
    ∷ "  default_type        application/octet-stream;\n" ∷ "\n" ∷ "  server {\n"
    ∷ "    listen 8080;\n" ∷ "    resolver " ∷ resolver ∷ " valid=10s;\n"
    ∷ "    proxy_intercept_errors on;\n" ∷ "    recursive_error_pages on;\n" ∷ "\n"
    ∷ "    location /nginx/health {\n" ∷ "      access_log off;\n" ∷ "      return 200;\n"
    ∷ "    }\n" ∷ "\n" ∷ [])

-- The locations that are passed to the FE.
forwarding : (proxy_pass : String) → String
unfolding concat
forwarding proxy_pass = concat (
    "    location / {\n" ∷ "      set $fe_service \"" ∷ proxy_pass ∷ "\";\n"
    ∷ "      proxy_pass $fe_service;\n" ∷ "      proxy_set_header Expect $http_expect;\n"
    ∷ "      proxy_set_header Host $host;\n" ∷ "      proxy_set_header X-Real-IP $remote_addr;\n"
    ∷ "      proxy_set_header X-Forwarded-For $proxy_add_x_forwarded_for;\n"
    ∷ "      error_page 307 = @handle_redirect;\n" ∷ "    }\n" ∷ "\n"
    ∷ "    location /api/transaction/load {\n" ∷ "      set $fe_service \"" ∷ proxy_pass ∷ "\";\n"
    ∷ "      proxy_pass $fe_service;\n" ∷ "      proxy_pass_request_body off;\n"
    ∷ "      proxy_set_header Content-Length \"\";\n"
    ∷ "      proxy_set_header Expect $http_expect;\n" ∷ "      proxy_set_header Host $host;\n"
    ∷ "      proxy_set_header X-Real-IP $remote_addr;\n"
    ∷ "      proxy_set_header X-Forwarded-For $proxy_add_x_forwarded_for;\n"
    ∷ "      error_page 307 = @handle_redirect;\n" ∷ "    }\n" ∷ "\n"
    ∷ "    location ~ ^/api/.*/.*/_stream_load$ {\n" ∷ "      set $fe_service \"" ∷ proxy_pass
    ∷ "\";\n" ∷ "      proxy_pass $fe_service;\n" ∷ "      proxy_pass_request_body off;\n"
    ∷ "      proxy_set_header Content-Length \"\";\n"
    ∷ "      proxy_set_header Expect $http_expect;\n" ∷ "      proxy_set_header Host $host;\n"
    ∷ "      proxy_set_header X-Real-IP $remote_addr;\n"
    ∷ "      proxy_set_header X-Forwarded-For $proxy_add_x_forwarded_for;\n"
    ∷ "      error_page 307 = @handle_redirect;\n" ∷ "    }\n" ∷ "\n" ∷ [])

-- The redirects of the FE, to itself and to others.
redirects : (search_service : String) → String
unfolding concat
redirects search_service = concat (
    "    location @handle_redirect {\n" ∷ "      if ($upstream_http_location ~ \"" ∷ search_service
    ∷ "\") {\n" ∷ "        rewrite ^ /_redirect_to_fe last;\n" ∷ "      }\n"
    ∷ "      if ($upstream_http_location !~ \"" ∷ search_service ∷ "\") {\n"
    ∷ "        rewrite ^ /_redirect_to_others last;\n" ∷ "      }\n" ∷ "    }\n" ∷ "\n"
    ∷ "    location /_redirect_to_fe {\n" ∷ "      set $redirect_uri '$upstream_http_location';\n"
    ∷ "      proxy_pass $redirect_uri;\n" ∷ "      proxy_set_header Expect $http_expect;\n"
    ∷ "      proxy_pass_request_body off;\n" ∷ "      proxy_set_header Content-Length \"\";\n"
    ∷ "      proxy_set_header Host $host;\n" ∷ "      proxy_set_header X-Real-IP $remote_addr;\n"
    ∷ "      proxy_set_header X-Forwarded-For $proxy_add_x_forwarded_for;\n"
    ∷ "      error_page 307 = @handle_redirect;\n" ∷ "    }\n" ∷ "\n"
    ∷ "    location /_redirect_to_others {\n"
    ∷ "      set $redirect_uri '$upstream_http_location';\n" ∷ "      proxy_pass $redirect_uri;\n"
    ∷ "      proxy_set_header Expect $http_expect;\n" ∷ "      proxy_pass_request_body on;\n"
    ∷ "      proxy_set_header Host $host;\n" ∷ "      proxy_set_header X-Real-IP $remote_addr;\n"
    ∷ "      proxy_set_header X-Forwarded-For $proxy_add_x_forwarded_for;\n"
    ∷ "      error_page 307 = @handle_redirect;\n" ∷ "    }\n" ∷ "  }\n" ∷ "}\n" ∷ [])

-- The value of nginx.conf.
unfoldable pub nginx_conf : (resolver proxy_pass search_service : String) → String
unfolding http_settings forwarding redirects
nginx_conf resolver proxy_pass search_service =
    http_settings resolver <> forwarding proxy_pass <> redirects search_service
